-- ===== src/Execution/Fence/Recover/Survive.antt =====
-- crates/execution/src/invocation.rs: what a recovery of one agent leaves of the other attempts.
use fleetd.Base.{ℕ, true, ◌≡◌, refl, String, List, [], ◌∷◌, arith, All, subst}
use fleetd.Error.{ok}
use fleetd.Table.{select, order_by}
use fleetd.Table.Laws.{All-update}
use fleetd.Db.{Db, InvocationRow}
use fleetd.Db.Tx.{bind_ok}
use fleetd.Execution.Session.Turn.{is_terminal}
use fleetd.Execution.Invocation.Complete.{set_terminal}
use fleetd.Execution.Invocation.Recover.{
  Lapse, armed_by_id, expired_reservation, expired_armed, lapses, reserved_le, park_all,
  saturating_add, park_expired_armed_invocation, terminalize_expired_reservations,
  recover_expired_invocations_transaction,
}
use fleetd.Execution.Fence.Recover.{lapse_end, park-Parks}
use fleetd.Execution.Fence.Recover.Listing.{end_reservation, reservations-effect}

-- What holds of every ended attempt survives a recovery.
module _ (agent_id : String) (now : ℕ) (P : InvocationRow → Type 0)
    (closed : (i : InvocationRow) → is_terminal i.state ≡ true → P i) where
  park_all-All :
      (rows : List Lapse) (recovered total : ℕ) (db after : Db)
      → All P db.invocations
      → park_all agent_id now rows recovered db ≡ ok (total, after)
      → All P after.invocations
  unfolding park_all
  park_all-All [] recovered total db after a h =
      (let same : db ≡ after = ground arith in subst (λ db. All P db.invocations) same a)
  park_all-All (row ∷ rows) recovered total db after a h =
      bind_ok (park_expired_armed_invocation row agent_id now) _ db h λ done db1 e1 k1.
        let parks = park-Parks row agent_id now db db1 e1 in
        park_all-All rows (saturating_add recovered 1) total db1 after
          (rw parks.invocations (
            All-update (armed_by_id row.id) (lapse_end now)
              (λ i _ _. closed (lapse_end now i) (unfold set_terminal in refl)) (λ i h _. h)
              db.invocations a))
          k1

  pub recover-All :
      (recovered : ℕ) (db after : Db)
      → All P db.invocations
      → recover_expired_invocations_transaction agent_id now db ≡ ok (recovered, after)
      → All P after.invocations
  unfolding recover_expired_invocations_transaction
  recover-All recovered db after a h =
      bind_ok (terminalize_expired_reservations agent_id now) _ db h λ n db1 e1 k1.
        park_all-All
          (lapses db1 now
            (order_by reserved_le (select (expired_armed db1 agent_id now) db1.invocations)))
          n recovered db1 after
          (rw (reservations-effect agent_id now db n db1 e1) (
            All-update (expired_reservation db agent_id now) (end_reservation agent_id now db)
              (λ i _ _. closed (end_reservation agent_id now db i) (unfold set_terminal in refl))
              (λ i h _. h) db.invocations a))
          k1
