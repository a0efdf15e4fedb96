-- ===== src/Execution/Fence/Settle/Block.antt =====
-- crates/execution/src/settlement.rs: what `block_delivery` does to the database.
use fleetd.Base.{ℕ, Bool, false, ◌&&◌, ◌≡◌, refl, String, arith, ◌⊎◌, str_eq, ◌==◌}
use fleetd.Error.{ok}
use fleetd.Table.{update, count}
use fleetd.Table.Laws.{Distinct, count-find, update-count_zero}
use fleetd.Model.{ExecutionCertainty, BlockDelivery}
use fleetd.Db.{Db, DeliveryRow, same_delivery}
use fleetd.Db.Statements.{update_deliveries, update_invocations}
use fleetd.Kernel.Delivery.{leased_row, settle, mark_blocked, set_blocked}
use fleetd.Db.Tx.{>>=-eq-ok}
use fleetd.Kernel.Delivery.Block.{
  BlockedDelivery, insert_block_record, blocked_delivery_by_id, blocked_delivery_by_lease,
}
use fleetd.Kernel.Delivery.Settling.{addressed, leased_row-addressed, addressed-same}
use fleetd.Execution.Session.Turn.{open_under_lease}
use fleetd.Execution.Invocation.Complete.{terminalize_invocation, set_terminal, is_outcome_unknown}
use fleetd.Execution.Settlement.{block_delivery, block_new, block_again}
use fleetd.Execution.Fence.Settle.{by_message}
use fleetd.Execution.Fence.Settle.Effects.{bound_turn-Reads}

-- Recording the evidence leaves the deliveries, the invocations and the messages.
pub insert_block-frame :
    (agent_id message_id : String) (input : BlockDelivery) (now : ℕ) (db : Db) {id : ℕ} {after : Db}
    → insert_block_record agent_id message_id input now db ≡ ok (id, after)
    → (after.deliveries ≡ db.deliveries)
      × (after.invocations ≡ db.invocations)
      × (after.messages ≡ db.messages)
unfolding insert_block_record
insert_block-frame agent_id message_id input now db h = ground arith

pub terminalize-effect :
    (agent_id message_id lease_token : String) (certainty : ExecutionCertainty) (reason : String)
    (now : ℕ) (db : Db) {after : Db}
    → terminalize_invocation agent_id message_id lease_token certainty reason now db
      ≡ ok (tt, after)
    → after ≡ record db {
      invocations =
          update
            (open_under_lease db.messages agent_id message_id lease_token)
            (set_terminal certainty reason now)
            db.invocations;
    }
unfolding terminalize_invocation update_invocations
terminalize-effect agent_id message_id lease_token certainty reason now db h = ground (
  arith,
  bound_turn-Reads agent_id message_id lease_token
      (is_outcome_unknown certainty && str_eq reason "blocked") db,
)

blocked_by_id-same :
    (block_id : ℕ) (db : Db) {b : BlockedDelivery} {after : Db}
    → blocked_delivery_by_id block_id db ≡ ok (b, after)
    → after ≡ db
unfolding blocked_delivery_by_id
blocked_by_id-same block_id db h = ground arith

module _ (agent_id message_id : String) (input : BlockDelivery) (now : ℕ) (db : Db) where
  abbrev matched : DeliveryRow → Bool
  matched = leased_row db.messages (by_message agent_id message_id input.lease_token now)

  -- Where keys are distinct, a settlement that does not move exactly one row moves none.
  missed :
      (set : DeliveryRow → DeliveryRow)
      → Distinct same_delivery db.deliveries
      → (count matched db.deliveries == 1) ≡ false
      → update matched set db.deliveries ≡ db.deliveries
  missed set distinct h = update-count_zero matched set db.deliveries zero_rows
    where
      zero_rows : count matched db.deliveries ≡ 0
      zero_rows = ground (
        arith,
        count-find same_delivery matched
            (addressed db.messages (by_message agent_id message_id input.lease_token now))
            (leased_row-addressed db.messages
              (by_message agent_id message_id input.lease_token now))
            (addressed-same db.messages (by_message agent_id message_id input.lease_token now))
            db.deliveries distinct,
      )

  block_new-effect :
      (start : Db) {after : Db} {result : BlockedDelivery × Bool}
      → start.messages ≡ db.messages
      → block_new agent_id message_id input now start ≡ ok (result, after)
      → (after.deliveries ≡ start.deliveries)
        × (after.invocations
            ≡ update
                (open_under_lease db.messages agent_id message_id input.lease_token)
                (set_terminal ExecutionCertainty.outcome_unknown "blocked" now)
                start.invocations)
  unfolding block_new
  block_new-effect start {after} same h =
      let (id, db1, e1, k1) =
        >>=-eq-ok (insert_block_record agent_id message_id input now) _ start h in
      let (u, db2, e2, k2) =
        >>=-eq-ok
          (terminalize_invocation agent_id message_id input.lease_token
            ExecutionCertainty.outcome_unknown "blocked" now)
          _ db1 k1 in
      let (b, db3, e3, k3) = >>=-eq-ok (blocked_delivery_by_id id) _ db2 k2 in
      ground (
        arith,
        insert_block-frame agent_id message_id input now start e1,
        terminalize-effect agent_id message_id input.lease_token ExecutionCertainty.outcome_unknown
            "blocked" now db1 e2,
        blocked_by_id-same id db2 e3,
      )

  -- After a block, the deliveries and the invocations are as before or settled together.
  pub block-effect :
      (result : BlockedDelivery × Bool) (after : Db)
      → Distinct same_delivery db.deliveries
      → block_delivery agent_id message_id input now db ≡ ok (result, after)
      → ((after.deliveries ≡ db.deliveries) × (after.invocations ≡ db.invocations))
        ⊎ ((after.deliveries
              ≡ update matched (set_blocked input.reason input.lease_token) db.deliveries)
            × (after.invocations
                ≡ update
                    (open_under_lease db.messages agent_id message_id input.lease_token)
                    (set_terminal ExecutionCertainty.outcome_unknown "blocked" now)
                    db.invocations))
  unfolding block_delivery mark_blocked block_again settle update_deliveries
      blocked_delivery_by_lease
  block-effect result after distinct h = ground (
    arith,
    missed (set_blocked input.reason input.lease_token) distinct,
    block_new-effect
        (record db {
          deliveries = update matched (set_blocked input.reason input.lease_token) db.deliveries;
        })
        {after = after} {result = result} refl,
  )
