-- ===== src/Execution/Fence/Reserve/Fresh.antt =====
-- crates/execution/src/invocation.rs: a reservation under a lease token that no delivery has yet.
use fleetd.Base.{
  ℕ, Bool, true, false, ◌&&◌, ◌≡◌, refl, none, some, Option, String, List, [], ◌∷◌, arith, All,
  All-map, str_eq, str_eq_iff, str_eq_refl, holds_text, subst, sym, ◌∙◌,
}
use fleetd.Error.{ok}
use fleetd.Table.{find, select}
use fleetd.Table.Laws.{All-select, All-order_by, All-both, All-update, select-holds, Distinct-find}
use fleetd.Model.{ClaimDeliveries}
use fleetd.Db.{Db, DeliveryRow, MessageRow, same_delivery, message_at}
use fleetd.Db.Tx.{bind_ok, lift, to_i64, checked_add, lift-same, to_i64-same, checked_add-same}
use fleetd.Kernel.Delivery.{is_leased, ensure_agent, leased_row, set_blocked}
use fleetd.Kernel.Delivery.Validate.{validate_claim}
use fleetd.Kernel.Delivery.Block.{holds_number}
use fleetd.Kernel.Delivery.Claim.{
  held, with_messages, seq_le, set_leased, is_among, chosen, lease_claimable,
}
use fleetd.Execution.Invocation.{Invocation}
use fleetd.Execution.Invocation.Recover.{
  Lapse, recover_expired_invocations_transaction, park_all, park_expired_armed_invocation,
  saturating_add, terminalize_expired_reservations,
}
use fleetd.Execution.Invocation.Reserve.{reserve_leased, reserve_invocations_filtered, pair_up}
use fleetd.Execution.Fence.{IsFenced}
use fleetd.Execution.Fence.Lease.{
  after_lease, lease-effect, lease-IsFenced, same_delivery-symmetric, ensure_agent-same,
}
use fleetd.Execution.Fence.Recover.{park-Parks, lapse_row, lapse_set}
use fleetd.Execution.Fence.Recover.Listing.{reservations-effect}
use fleetd.Execution.Fence.Recover.Agents.{recover-clears}
use fleetd.Execution.Fence.Reserve.{Ready, reserve_rows-IsFenced}

-- Recovery hands out no lease.
module _ (agent_id : String) (now : ℕ) (token : String) where
  parked_unheld :
      (row : Lapse) (d : DeliveryRow) → holds_text (lapse_set row d).lease_token token ≡ false
  unfolding set_blocked
  parked_unheld row d = refl

  park_all-unheld :
      (rows : List Lapse) (recovered total : ℕ) (db after : Db)
      → All (λ d. holds_text d.lease_token token ≡ false) db.deliveries
      → park_all agent_id now rows recovered db ≡ ok (total, after)
      → All (λ d. holds_text d.lease_token token ≡ false) after.deliveries
  unfolding park_all
  park_all-unheld [] recovered total db after a h =
      (let same : db ≡ after = ground arith in
        subst (λ db. All (λ d. holds_text d.lease_token token ≡ false) db.deliveries) same a)
  park_all-unheld (row ∷ rows) recovered total db after a h =
      bind_ok (park_expired_armed_invocation row agent_id now) _ db h λ done db1 e1 k1.
        let parks = park-Parks row agent_id now db db1 e1 in
        park_all-unheld rows (saturating_add recovered 1) total db1 after
          (rw parks.deliveries (
            All-update (leased_row db.messages (lapse_row agent_id now row)) (lapse_set row)
              (λ d _ _. parked_unheld row d) (λ d h _. h) db.deliveries a))
          k1

  recover-unheld :
      (recovered : ℕ) (db after : Db)
      → All (λ d. holds_text d.lease_token token ≡ false) db.deliveries
      → recover_expired_invocations_transaction agent_id now db ≡ ok (recovered, after)
      → All (λ d. holds_text d.lease_token token ≡ false) after.deliveries
  unfolding recover_expired_invocations_transaction
  recover-unheld recovered db after a h =
      bind_ok (terminalize_expired_reservations agent_id now) _ db h λ n db1 e1 k1.
        park_all-unheld _ n recovered db1 after
          (rw (reservations-effect agent_id now db n db1 e1) a) k1

module _ (agent_id token : String) (expires now limit : ℕ) (kinds : Option (List String))
    (db : Db) where
  -- After the lease, every row under the token expires with it.
  leased-until :
      All (λ d. holds_text d.lease_token token ≡ false) db.deliveries
      → All
          (λ d.
            holds_text d.lease_token token ≡ true
            → holds_number d.lease_expires_at_ms expires ≡ true)
          (after_lease agent_id token expires now limit kinds db).deliveries
  leased-until a =
      All-update (is_among (chosen db agent_id now limit kinds)) (set_leased token expires)
        (λ d _ _ _. unfold set_leased in (ground arith)) (λ d f _ e. absurd (ground arith))
        db.deliveries a

All-with_messages :
    (P : DeliveryRow → Type 0) (messages : List MessageRow) (ds : List DeliveryRow)
    → All P ds
    → All (λ row. P row.0) (with_messages messages pair_up ds)
unfolding with_messages
All-with_messages P messages [] a = tt
All-with_messages P messages (d ∷ ds) a =
    go (All-with_messages P messages ds a.1) (message_at messages d.message_seq)
  where
    go :
        All (λ row. P row.0) (with_messages messages pair_up ds)
        → (o : Option MessageRow)
        → All
            (λ row. P row.0)
            (elim o [
              | none ↦ with_messages messages pair_up ds
              | some m ↦ pair_up d m ∷ with_messages messages pair_up ds
            ])
    go more none = more
    go more (some m) = (a.0, more)

-- The rows that the reservation reads.
abbrev own : String → String → DeliveryRow → Bool
own agent_id token d =
    str_eq d.agent_id agent_id && is_leased d.state && holds_text d.lease_token token

module _ (agent_id token : String) (expires now : ℕ) where
  abbrev IsExpiring : DeliveryRow → Type 0
  IsExpiring d =
      holds_text d.lease_token token ≡ true → holds_number d.lease_expires_at_ms expires ≡ true

  own-Ready :
      (ds : List DeliveryRow) (d : DeliveryRow)
      → own agent_id token d ≡ true
      → IsExpiring d
      → find (same_delivery d) ds ≡ some d
      → Ready agent_id token expires now ds d
  own-Ready ds d e until at =
      (let agent : d.agent_id ≡ agent_id = ground (arith, str_eq_iff d.agent_id agent_id) in
        record {
          at = rw (sym agent) at;
          leased = ground arith;
          owned = ground arith;
          until = until (ground arith);
        })

  held-Ready :
      (db : Db)
      → IsFenced db
      → All IsExpiring db.deliveries
      → All
          (λ row. Ready agent_id token expires now db.deliveries row.0)
          (with_messages db.messages pair_up (held db agent_id token))
  unfolding held
  held-Ready db v a = All-with_messages _ db.messages _ (
      All-order_by _ seq_le (select (own agent_id token) db.deliveries) (
        All-map (λ d (e, rest). own-Ready db.deliveries d e rest.0 rest.1)
          (select (own agent_id token) db.deliveries)
          (All-both _ _ (select (own agent_id token) db.deliveries)
            (select-holds (own agent_id token) db.deliveries)
            (All-select (own agent_id token) _ db.deliveries (
              All-both _ _ db.deliveries a (
                Distinct-find same_delivery (λ d. ground (arith, str_eq_refl d.agent_id))
                  same_delivery-symmetric db.deliveries v.distinct))))))

module _ (uuid : ℕ → String) (agent_id : String) (now : ℕ) where
  reserve_leased-IsFenced :
      (limit : ℕ) (kinds : Option (List String)) (expires : ℕ) (db after : Db)
      (result : List Invocation)
      → IsFenced db
      → All (λ d. holds_text d.lease_token (uuid 0) ≡ false) db.deliveries
      → reserve_leased uuid agent_id limit kinds expires now db ≡ ok (result, after)
      → IsFenced after
  unfolding reserve_leased
  reserve_leased-IsFenced limit kinds expires db after result v fresh h =
      bind_ok (recover_expired_invocations_transaction agent_id now) _ db h λ n db1 e1 k1.
        bind_ok (lease_claimable agent_id (uuid 0) expires now limit kinds) _ db1 k1 λ u db2 e2 k2.
          let (v1, clear) = recover-clears agent_id now db db1 n v e1 in
          let same = lease-effect agent_id (uuid 0) expires now limit kinds db1 db2 e2 in
          let v2 : IsFenced db2 =
            subst IsFenced (sym same)
              (lease-IsFenced agent_id (uuid 0) expires now limit kinds db1 v1 clear) in
          reserve_rows-IsFenced agent_id (uuid 0) expires now uuid 0 _ db2 after result v2
            (held-Ready agent_id (uuid 0) expires now db2 v2 (
              rw same (
                leased-until agent_id (uuid 0) expires now limit kinds db1
                  (recover-unheld agent_id now (uuid 0) n db db1 fresh e1))))
            k2

  -- A reservation that commits keeps the invocation fence, where the lease token that it draws is
  -- held by no delivery: it takes no delivery from an open invocation, and each new invocation
  -- holds its delivery alone.
  pub reserve-IsFenced :
      (input : ClaimDeliveries) (kinds : Option (List String)) (db after : Db)
      (result : List Invocation)
      → IsFenced db
      → All (λ d. holds_text d.lease_token (uuid 0) ≡ false) db.deliveries
      → reserve_invocations_filtered uuid agent_id input kinds now db ≡ ok (result, after)
      → IsFenced after
  unfolding reserve_invocations_filtered
  reserve-IsFenced input kinds db after result v fresh h =
      bind_ok (lift (validate_claim input)) _ db h λ u0 db0 e0 k0.
        bind_ok (ensure_agent agent_id) _ db0 k0 λ u1 db1 e1 k1.
          bind_ok (to_i64 "lease duration is too large" input.lease_duration_ms) _ db1 k1
            λ duration db2 e2 k2.
              bind_ok (checked_add "lease expiry overflowed" now duration) _ db2 k2
                λ expires db3 e3 k3.
                  let start : db3 ≡ db =
                    (checked_add-same "lease expiry overflowed" now duration db2 e3).1
                    ∙ (to_i64-same "lease duration is too large" input.lease_duration_ms db1 e2).1
                    ∙ ensure_agent-same agent_id db0 db1 e1
                    ∙ lift-same (validate_claim input) db e0 in
                  reserve_leased-IsFenced input.limit kinds expires db3 after result
                    (subst IsFenced (sym start) v) (rw start fresh) k3
