-- ===== src/Execution/Fence/Lease.antt =====
-- crates/kernel/src/delivery.rs and crates/execution/src/settlement.rs: the invocation fence under
-- `lease_claimable` and `claim_deliveries`.
use fleetd.Base.{
  ℕ, true, false, not, ◌≡◌, refl, none, some, Option, String, List, arith, All, All-map, take,
  str_eq_iff, inl, inr, Bool-cases, subst, sym, ◌∙◌,
}
use fleetd.Error.{ok}
use fleetd.Table.{update, select, order_by}
use fleetd.Table.Laws.{
  All-select, All-order_by, All-take, All-both, All-find, select-holds, Distinct-equal, any-elim,
  find-holds, update-never,
}
use fleetd.Model.{ExecutionCertainty, ClaimDeliveries}
use fleetd.Db.{Db, DeliveryRow, InvocationRow, delivery_key, same_delivery}
use fleetd.Db.Tx.{bind_ok, lift, to_i64, checked_add, lift-same, to_i64-same, checked_add-same}
use fleetd.Db.Statements.{update_deliveries}
use fleetd.Kernel.Delivery.{in_window, ensure_agent}
use fleetd.Kernel.Delivery.Validate.{validate_claim}
use fleetd.Kernel.Delivery.Claim.{
  claimable, set_leased, seq_le, chosen, is_among, lease_claimable, leased_batch, Delivery,
}
use fleetd.Execution.Session.Turn.{is_terminal}
use fleetd.Execution.Invocation.Complete.{set_terminal}
use fleetd.Execution.Invocation.Recover.{recover_expired_invocations_transaction}
use fleetd.Execution.Settlement.{ClaimBatch, claim_deliveries, claim_leased}
use fleetd.Execution.Fence.{delivery_of, holds_lease, IsFenced}
use fleetd.Execution.Fence.Update.{KeepsKey, updated-IsFenced}
use fleetd.Execution.Fence.Settle.{terminal-KeepsFence}
use fleetd.Execution.Fence.Settle.Preserve.{IsFenced-tables}
use fleetd.Execution.Fence.Recover.Sweep.{due}
use fleetd.Execution.Fence.Recover.Agents.{recover-clears}

pub leased-KeepsKey : (token : String) (expires : ℕ) → KeepsKey (set_leased token expires)
unfolding set_leased
leased-KeepsKey token expires = record { seq = λ d. refl; agent = λ d. refl }

pub same_delivery-symmetric : (a b : DeliveryRow) → same_delivery a b ≡ same_delivery b a
same_delivery-symmetric a b =
    ground (arith, str_eq_iff a.agent_id b.agent_id, str_eq_iff b.agent_id a.agent_id)

-- The database after a lease.
abbrev pub after_lease : String → String → ℕ → ℕ → ℕ → Option (List String) → Db → Db
after_lease agent_id token expires now limit kinds db = record db {
  deliveries =
      update (is_among (chosen db agent_id now limit kinds)) (set_leased token expires)
        db.deliveries;
}

pub lease-effect :
    (agent_id token : String) (expires now limit : ℕ) (kinds : Option (List String)) (db after : Db)
    → lease_claimable agent_id token expires now limit kinds db ≡ ok (tt, after)
    → after ≡ after_lease agent_id token expires now limit kinds db
unfolding lease_claimable update_deliveries
lease-effect agent_id token expires now limit kinds db after h = ground arith

module _ (agent_id token : String) (expires now limit : ℕ) (kinds : Option (List String)) (db : Db)
    (v : IsFenced db) where
  -- A row that is chosen by its key is claimable.
  among-claimable :
      (d : DeliveryRow)
      → All (λ c. same_delivery d c ≡ true → d ≡ c) db.deliveries
      → is_among (chosen db agent_id now limit kinds) d ≡ true
      → claimable db.messages agent_id now kinds d ≡ true
  unfolding chosen
  among-claimable d own h =
      any-elim
        (λ c.
          (claimable db.messages agent_id now kinds c ≡ true) × (same_delivery d c ≡ true → d ≡ c))
        (claimable db.messages agent_id now kinds d ≡ true) (λ c. same_delivery c d)
        (take limit
          (order_by seq_le (select (claimable db.messages agent_id now kinds) db.deliveries)))
        (All-take _ limit _ (
          All-order_by _ seq_le (select (claimable db.messages agent_id now kinds) db.deliveries) (
            All-both _ _ (select (claimable db.messages agent_id now kinds) db.deliveries)
              (select-holds (claimable db.messages agent_id now kinds) db.deliveries)
              (All-select (claimable db.messages agent_id now kinds) _ db.deliveries own))))
        h
        (λ c (e, same) t.
          subst (λ c. claimable db.messages agent_id now kinds c ≡ true)
            (sym (same (rw (same_delivery-symmetric d c) t))) e)

  -- A held delivery of an open attempt that is not due is not claimable.
  held-not_claimable :
      (i : InvocationRow) (d : DeliveryRow)
      → due agent_id now i ≡ false
      → is_terminal i.state ≡ false
      → delivery_of db.deliveries i ≡ some d
      → holds_lease i d ≡ true
      → claimable db.messages agent_id now kinds d ≡ false
  unfolding claimable due holds_lease in_window
  held-not_claimable i d early going at held = ground (
    arith,
    find-holds (delivery_key i.message_seq i.agent_id) db.deliveries d at,
    str_eq_iff d.agent_id agent_id,
    str_eq_iff d.agent_id i.agent_id,
    str_eq_iff i.agent_id agent_id,
  )

  pub lease-IsFenced :
      All (λ i. due agent_id now i ≡ false) db.invocations
      → IsFenced (after_lease agent_id token expires now limit kinds db)
  lease-IsFenced clear =
      IsFenced-tables _ _ refl
        (sym (update-never (set_terminal ExecutionCertainty.outcome_known "" now) db.invocations))
        (updated-IsFenced db (is_among (chosen db agent_id now limit kinds))
          (set_leased token expires) (λ _. false)
          (set_terminal ExecutionCertainty.outcome_known "" now) (leased-KeepsKey token expires)
          (terminal-KeepsFence ExecutionCertainty.outcome_known "" now)
          (λ i. not (due agent_id now i)) passes (All-map (λ i e. rw e refl) db.invocations clear)
          v)
    where
      passes :
          (i : InvocationRow) (d : DeliveryRow)
          → not (due agent_id now i) ≡ true
          → false ≡ false
          → is_terminal i.state ≡ false
          → delivery_of db.deliveries i ≡ some d
          → holds_lease i d ≡ true
          → is_among (chosen db agent_id now limit kinds) d ≡ false
      passes i d early _ going at held =
          elim (Bool-cases (is_among (chosen db agent_id now limit kinds) d)) [
            | inr e ↦ e
            | inl e ↦
                (let own =
                    All-find (delivery_key i.message_seq i.agent_id) _ db.deliveries d
                      (Distinct-equal same_delivery same_delivery-symmetric db.deliveries
                        v.distinct)
                      at in
                  ground (
                    arith,
                    among-claimable d own e,
                    held-not_claimable i d (ground arith) going at held,
                  ))
          ]

pub ensure_agent-same :
    (agent_id : String) (db after : Db) → ensure_agent agent_id db ≡ ok (tt, after) → after ≡ db
unfolding ensure_agent
ensure_agent-same agent_id db after h = ground arith

module _ (agent_id token : String) (now : ℕ) where
  claim_leased-IsFenced :
      (expires limit : ℕ) (db after : Db) (batch : List Delivery)
      → IsFenced db
      → claim_leased agent_id token expires now limit db ≡ ok (batch, after)
      → IsFenced after
  unfolding claim_leased leased_batch
  claim_leased-IsFenced expires limit db after batch v h =
      bind_ok (recover_expired_invocations_transaction agent_id now) _ db h λ n db1 e1 k1.
        bind_ok (lease_claimable agent_id token expires now limit none) _ db1 k1 λ u db2 e2 k2.
          let (v1, clear) = recover-clears agent_id now db db1 n v e1 in
          let end : after ≡ db2 = ground arith in
          subst IsFenced (sym (end ∙ lease-effect agent_id token expires now limit none db1 db2 e2))
            (lease-IsFenced agent_id token expires now limit none db1 v1 clear)

  -- A claim of deliveries that commits keeps the invocation fence: after the agent's expired
  -- attempts are reconciled, no delivery that an open invocation holds is claimed.
  pub claim-IsFenced :
      (input : ClaimDeliveries) (db after : Db) (batch : ClaimBatch)
      → IsFenced db
      → claim_deliveries token agent_id input now db ≡ ok (batch, after)
      → IsFenced after
  unfolding claim_deliveries
  claim-IsFenced input db after batch v h =
      bind_ok (lift (validate_claim input)) _ db h λ u0 db0 e0 k0.
        bind_ok (to_i64 "lease duration is too large" input.lease_duration_ms) _ db0 k0
          λ duration db1 e1 k1.
            bind_ok (checked_add "lease expiry overflowed" now duration) _ db1 k1
              λ expires db2 e2 k2. bind_ok (ensure_agent agent_id) _ db2 k2 λ u3 db3 e3 k3.
                bind_ok (claim_leased agent_id token expires now input.limit) _ db3 k3
                  λ rows db4 e4 k4.
                    let start : db3 ≡ db =
                      ensure_agent-same agent_id db2 db3 e3
                      ∙ (checked_add-same "lease expiry overflowed" now duration db1 e2).1
                      ∙ (to_i64-same "lease duration is too large" input.lease_duration_ms db0 e1).1
                      ∙ lift-same (validate_claim input) db e0 in
                    let end : db4 ≡ after = ground arith in
                    subst IsFenced end (
                      claim_leased-IsFenced expires input.limit db3 db4 rows
                        (subst IsFenced (sym start) v) e4)
