-- ===== src/Execution/Fence/Resolve.antt =====
-- crates/execution/src/settlement.rs: the invocation fence under `resolve_delivery_block`.
use fleetd.Base.{
  ℕ, ◌+◌, Bool, true, false, ◌≡◌, refl, Option, String, arith, ◌⊎◌, inl, inr, subst, sym,
}
use fleetd.Error.{ok}
use fleetd.Table.{update}
use fleetd.Model.{ResolveDeliveryBlock, BlockResolution}
use fleetd.Db.{Db, DeliveryRow, BlockRow, InvocationRow}
use fleetd.Db.Tx.{to_i64, checked_add, bind_ok, lift, lift-same, to_i64-same}
use fleetd.Db.Statements.{update_deliveries, update_bindings}
use fleetd.Kernel.Delivery.Block.{
  blocked_row, set_requeued, set_dead, resolve_delivery_block_transaction, resolution_row,
  apply_resolution, resolution_is_replay, resolve_delivery_row, resolve_row_as, mark_block_resolved,
}
use fleetd.Kernel.Delivery.Validate.{validate_resolution}
use fleetd.Execution.Session.Turn.{
  retire_uncertain_session_for_delivery_block, retire_uncertain_binding,
}
use fleetd.Execution.Settlement.{resolve_delivery_block}
use fleetd.Execution.Fence.{holds_lease, IsFenced}
use fleetd.Execution.Fence.Update.{KeepsKey, fenced-keep, deliveries-Distinct}
use fleetd.Execution.Fence.Settle.Preserve.{IsFenced-tables}

-- The row that a decision writes.
abbrev pub decided : BlockResolution → ℕ → Option String → DeliveryRow → DeliveryRow
decided BlockResolution.requeue available_at_ms text = set_requeued available_at_ms text
decided BlockResolution.abandon available_at_ms text = set_dead text

abbrev pub decided_by : ResolveDeliveryBlock → ℕ → DeliveryRow → DeliveryRow
decided_by input now = decided input.resolution (now + input.retry_after_ms) input.note

-- A decision leaves every delivery as it was, or writes the blocked delivery of its block.
abbrev pub Decides : ResolveDeliveryBlock → ℕ → ℕ → String → Db → Db → Type 0
Decides input now seq agent_id db after =
    (after.invocations ≡ db.invocations)
    × ((after.deliveries ≡ db.deliveries)
        ⊎ (after.deliveries
            ≡ update (blocked_row seq agent_id) (decided_by input now) db.deliveries))

apply-effect :
    (block_id : ℕ) (input : ResolveDeliveryBlock) (now : ℕ) (b : BlockRow) (d : DeliveryRow)
    (delay : ℕ) (db after : Db)
    → delay ≡ input.retry_after_ms
    → apply_resolution block_id input delay now (b, d) db ≡ ok (tt, after)
    → Decides input now b.message_seq b.agent_id db after
unfolding apply_resolution resolution_is_replay resolve_delivery_row resolve_row_as
    mark_block_resolved update_deliveries checked_add
apply-effect block_id input now b d delay db after same h = ground arith

-- Retiring a session touches the bindings only.
retire-frame :
    (block_id : ℕ) (resolution : BlockResolution) (now : ℕ) (db after : Db) (done : Bool)
    → retire_uncertain_session_for_delivery_block block_id resolution now db ≡ ok (done, after)
    → (after.deliveries ≡ db.deliveries) × (after.invocations ≡ db.invocations)
unfolding retire_uncertain_session_for_delivery_block retire_uncertain_binding update_bindings
retire-frame block_id resolution now db after done h = ground arith

resolution_row-same :
    (block_id : ℕ) (db : Db) {row : BlockRow × DeliveryRow} {after : Db}
    → resolution_row block_id db ≡ ok (row, after)
    → after ≡ db
unfolding resolution_row
resolution_row-same block_id db h = ground arith

pub resolve_transaction-effect :
    (block_id : ℕ) (input : ResolveDeliveryBlock) (now : ℕ) (db after : Db)
    → resolve_delivery_block_transaction block_id input now db ≡ ok (tt, after)
    → (seq : ℕ) × (agent_id : String) × Decides input now seq agent_id db after
unfolding resolve_delivery_block_transaction
resolve_transaction-effect block_id input now db after h =
    bind_ok (lift (validate_resolution block_id input)) _ db h λ checked db0 e0 k0.
      bind_ok (to_i64 "retry delay is too large" input.retry_after_ms) _ db0 k0 λ delay db1 e1 k1.
        bind_ok (resolution_row block_id) _ db1 k1 λ (b, d) db2 e2 k2. (
          b.message_seq,
          b.agent_id,
          ground (
            arith,
            lift-same (validate_resolution block_id input) db e0,
            to_i64-same "retry delay is too large" input.retry_after_ms db0 e1,
            resolution_row-same block_id db1 e2,
            apply-effect block_id input now b d delay db2 after,
          ),
        )

decided-KeepsKey :
    (resolution : BlockResolution) (at : ℕ) (note : Option String)
    → KeepsKey (decided resolution at note)
unfolding set_requeued set_dead
decided-KeepsKey BlockResolution.requeue at text = record { seq = λ d. refl; agent = λ d. refl }
decided-KeepsKey BlockResolution.abandon at text = record { seq = λ d. refl; agent = λ d. refl }

-- A blocked delivery is held by no invocation.
Decides-IsFenced :
    (input : ResolveDeliveryBlock) (now seq : ℕ) (agent_id : String) (db after : Db)
    → IsFenced db
    → Decides input now seq agent_id db after
    → IsFenced after
Decides-IsFenced input now seq agent_id db after v (is, inl ds) = IsFenced-tables db after ds is v
Decides-IsFenced input now seq agent_id db after v (is, inr ds) =
    IsFenced-tables
      (record db {
        deliveries = update (blocked_row seq agent_id) (decided_by input now) db.deliveries;
      })
      after ds is
      (record {
        fenced =
            fenced-keep (blocked_row seq agent_id) (decided_by input now)
              (decided-KeepsKey input.resolution (now + input.retry_after_ms) input.note)
              db.deliveries passes db.invocations v.fenced;
        single = v.single;
        distinct =
            deliveries-Distinct (blocked_row seq agent_id) (decided_by input now)
              (decided-KeepsKey input.resolution (now + input.retry_after_ms) input.note)
              db.deliveries v.distinct;
      })
  where
    passes :
        (i : InvocationRow) (d : DeliveryRow)
        → holds_lease i d ≡ true
        → blocked_row seq agent_id d ≡ false
    passes i d held = unfold holds_lease in (ground arith)

-- An operator's decision on a block, when it commits, keeps the invocation fence: the delivery
-- that it requeues or abandons is held by no open invocation.
pub resolve-IsFenced :
    (block_id : ℕ) (input : ResolveDeliveryBlock) (now : ℕ) (db after : Db)
    → IsFenced db
    → resolve_delivery_block block_id input now db ≡ ok (tt, after)
    → IsFenced after
unfolding resolve_delivery_block
resolve-IsFenced block_id input now db after v h =
    bind_ok (resolve_delivery_block_transaction block_id input now) _ db h λ done db1 e1 k1.
      bind_ok (retire_uncertain_session_for_delivery_block block_id input.resolution now) _ db1 k1
        λ retired db2 e2 k2.
          let (seq, agent_id, d) = resolve_transaction-effect block_id input now db db1 e1 in
          let (ds, is) = retire-frame block_id input.resolution now db1 db2 retired e2 in
          let end : after ≡ db2 = ground arith in
          subst IsFenced (sym end)
            (IsFenced-tables db1 db2 ds is (Decides-IsFenced input now seq agent_id db db1 v d))
