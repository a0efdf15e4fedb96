-- ===== src/Execution/Fence/Settle/Effects.antt =====
-- crates/execution/src/settlement.rs: what `acknowledge_delivery` and `retry_delivery` do to the
-- database.
use fleetd.Base.{ℕ, Bool, false, ◌≡◌, String, arith, ◌⊎◌, ◌+◌}
use fleetd.Error.{Result, ok, err}
use fleetd.Table.{update}
use fleetd.Model.{Settlement, ExecutionCertainty, RetryDelivery}
use fleetd.Db.{Db, DeliveryRow, InvocationRow}
use fleetd.Db.Tx.{Tx, to_i64, checked_add}
use fleetd.Db.Statements.{update_deliveries, update_invocations}
use fleetd.Kernel.Delivery.{
  leased_row, settle, settle_miss, mark_acknowledged, mark_retry, set_acknowledged, set_retry,
}
use fleetd.Execution.Session.Turn.{ensure_bound_turn_allows_delivery_settlement, open_under_lease}
use fleetd.Execution.Invocation.Complete.{
  terminalize_invocation, set_terminal, ensure_retry_is_safe,
}
use fleetd.Execution.Settlement.{acknowledge_delivery, retry_delivery}
use fleetd.Execution.Fence.Update.{updated}
use fleetd.Execution.Fence.Settle.{by_message}

-- A check that passes leaves the database as it was.
abbrev kept : Db → Result (Unit {0} × Db) → Result (Unit {0} × Db)
kept db (ok r) = ok (tt, db)
kept db (err e) = err e

abbrev pub Reads : Tx (Unit {0}) → Db → Type 0
Reads m db = m db ≡ kept db (m db)

pub bound_turn-Reads :
    (agent_id message_id lease_token : String) (allow : Bool) (db : Db)
    → Reads (ensure_bound_turn_allows_delivery_settlement agent_id message_id lease_token allow) db
unfolding ensure_bound_turn_allows_delivery_settlement
bound_turn-Reads agent_id message_id lease_token allow db = ground arith

pub settle_miss-Reads :
    (agent_id message_id lease_token : String) (expected : Settlement) (db : Db)
    → Reads (settle_miss agent_id message_id lease_token expected) db
unfolding settle_miss
settle_miss-Reads agent_id message_id lease_token expected db = ground arith

pub retry_is_safe-Reads :
    (agent_id message_id lease_token : String) (db : Db)
    → Reads (ensure_retry_is_safe agent_id message_id lease_token) db
unfolding ensure_retry_is_safe
retry_is_safe-Reads agent_id message_id lease_token db = ground arith

module _ (agent_id message_id : String) (now : ℕ) (db : Db) where
  -- The database after a settlement that moved its row.
  abbrev pub settled : String → (DeliveryRow → DeliveryRow) → (InvocationRow → InvocationRow) → Db
  settled lease_token set end =
      updated db (leased_row db.messages (by_message agent_id message_id lease_token now)) set
        (open_under_lease db.messages agent_id message_id lease_token) end

  -- What the settlement itself leaves.
  abbrev moved : String → (DeliveryRow → DeliveryRow) → Db
  moved lease_token set = record db {
    deliveries =
        update (leased_row db.messages (by_message agent_id message_id lease_token now)) set
          db.deliveries;
  }

  pub acknowledge-effect :
      (lease_token : String) {after : Db}
      → acknowledge_delivery agent_id message_id lease_token now db ≡ ok (tt, after)
      → (after ≡ db)
        ⊎ (after
            ≡ settled lease_token
                (set_acknowledged lease_token now)
                (set_terminal ExecutionCertainty.outcome_known "acknowledged" now))
  unfolding acknowledge_delivery mark_acknowledged terminalize_invocation settle update_deliveries
      update_invocations
  acknowledge-effect lease_token h = ground (
    arith,
    settle_miss-Reads agent_id message_id lease_token Settlement.acknowledged db,
    bound_turn-Reads agent_id message_id lease_token false
        (moved lease_token (set_acknowledged lease_token now)),
  )

  pub retry-effect :
      (input : RetryDelivery) {after : Db}
      → retry_delivery agent_id message_id input now db ≡ ok (tt, after)
      → (after ≡ db)
        ⊎ (after
            ≡ settled input.lease_token
                (set_retry input (now + input.retry_after_ms))
                (set_terminal ExecutionCertainty.not_started "retry" now))
  unfolding retry_delivery mark_retry terminalize_invocation settle update_deliveries
      update_invocations to_i64 checked_add
  retry-effect input h = ground (
    arith,
    settle_miss-Reads agent_id message_id input.lease_token Settlement.retry db,
    retry_is_safe-Reads agent_id message_id input.lease_token db,
    bound_turn-Reads agent_id message_id input.lease_token false
        (moved input.lease_token (set_retry input (now + input.retry_after_ms))),
  )
