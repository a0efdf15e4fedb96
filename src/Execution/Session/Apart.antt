-- ===== src/Execution/Session/Apart.antt =====
-- crates/execution and crates/kernel: what a transaction on messages, deliveries and invocations
-- keeps, where a relation looks at the sessions alone.
pub mod Invocations
pub mod Settlements
use fleetd.Base.{
  ℕ, ◌≡◌, refl, Bool, true, false, Option, none, some, String, List, [], ◌∷◌, ◌++◌, arith,
}
use fleetd.Error.{ok}
use fleetd.Model.{
  InvocationState, Settlement, BlockResolution, ExecutionCertainty, CreateMessage, ArmInvocation,
  CompleteInvocation, ClaimDeliveries, RetryDelivery, BlockDelivery, ResolveDeliveryBlock,
}
use fleetd.Db.{Db, DeliveryRow, MessageRow, InvocationRow, BlockRow}
use fleetd.Db.Statements.{update_deliveries, update_invocations}
use fleetd.Db.Tx.{Tx, put, get, ◌>>=◌, ◌>>◌}
use fleetd.Db.Keeps.{
  Relation, Keeps, keeping, going_back, bind, guards, gets, option, expects, pures, either,
}
use fleetd.Kernel.Delivery.{
  LeasedRow, settle, mark_acknowledged, mark_retry, mark_blocked, block_expired_lease,
  acknowledge_leased_seq, settle_miss, ensure_agent,
}
use fleetd.Kernel.Delivery.Claim.{lease_claimable, leased_batch}
use fleetd.Kernel.Delivery.Block.{
  record_block, insert_block_record, blocked_delivery_by_id, blocked_delivery_by_lease,
  resolution_row, resolution_is_replay, resolve_delivery_row, resolve_row_as, mark_block_resolved,
  apply_resolution, resolve_delivery_block_transaction,
}
use fleetd.Kernel.Message.{
  channel_row, ensure_member, ensure_recipient, insert_deliveries, insert_delivery_snapshot,
  insert_message_row, insert_message, append_new, recognise, append_message_in_transaction,
  repeated, validate_idempotency_key,
}
use fleetd.Execution.Invocation.{
  Fenced, invocation_by_id, invocation_with_delivery, validate_static_fence, validate_live_lease,
  validate_invocation_fence,
}
use fleetd.Execution.Invocation.Arm.{validate_arm, arm_reserved, arm_as, arm_invocation_transaction}
use fleetd.Execution.Invocation.Complete.{
  validate_completion, message_by_seq, completed_replay, ensure_result_key_unused,
  acknowledge_invocation_delivery, publish_result, complete_as, complete_invocation_transaction,
  ensure_retry_is_safe, terminalize_invocation,
}
use fleetd.Execution.Session.Turn.{
  ensure_invocation_not_active_on_session, ensure_bound_turn_allows_delivery_settlement,
}

deliveries-apart :
    (ds : List DeliveryRow) (db after : Db)
    → insert_deliveries ds db ≡ ok (tt, after)
    → (after.bindings ≡ db.bindings) × (after.turns ≡ db.turns)
unfolding insert_deliveries
deliveries-apart [] db after e = ground arith
deliveries-apart (d ∷ ds) db after e =
    ground (arith, deliveries-apart ds (record db { deliveries = db.deliveries ++ d ∷ [] }) after)

-- The relation looks at bindings and turns alone.
pub record IsApart (r : Relation) : Type 0 where
  pub apart :
      (db after : Db) → after.bindings ≡ db.bindings → after.turns ≡ db.turns → r.holds db after

module _ {r : Relation} (a : IsApart r) where
  pub delivery_updates :
      (p : DeliveryRow → Bool) (f : DeliveryRow → DeliveryRow) → Keeps r (update_deliveries p f)
  unfolding update_deliveries
  delivery_updates p f = record {
    kept = λ db after n e. a.apart db after (ground arith) (ground arith);
  }

  pub invocation_updates :
      (p : InvocationRow → Bool) (f : InvocationRow → InvocationRow)
      → Keeps r (update_invocations p f)
  unfolding update_invocations
  invocation_updates p f = record {
    kept = λ db after n e. a.apart db after (ground arith) (ground arith);
  }

  pub settles : (row : LeasedRow) (f : DeliveryRow → DeliveryRow) → Keeps r (settle row f)
  unfolding settle
  settles row f = search (keeping, delivery_updates)

  pub messages_insert :
      (id : String) (at : ℕ) (channel_id : String) (input : CreateMessage)
      → Keeps r (insert_message_row id at channel_id input)
  unfolding insert_message_row
  messages_insert id at channel_id input = record {
    kept = λ db after n e. a.apart db after (ground arith) (ground arith);
  }

  pub deliveries_insert : (ds : List DeliveryRow) → Keeps r (insert_deliveries ds)
  deliveries_insert ds = record {
    kept = λ db after u e. let (bs, ts) = deliveries-apart ds db after e in a.apart db after bs ts;
  }

  pub blocks_insert :
      (seq : ℕ) (agent_id : String) (n : ℕ) (token reason : String) (at : ℕ)
      → Keeps r (record_block seq agent_id n token reason at)
  unfolding record_block
  blocks_insert seq agent_id n token reason at = record {
    kept = λ db after u e. a.apart db after (ground arith) (ground arith);
  }

  pub blocks_update :
      (block_id : ℕ) (input : ResolveDeliveryBlock) (n now : ℕ)
      → Keeps r (mark_block_resolved block_id input n now)
  unfolding mark_block_resolved
  blocks_update block_id input n now = record {
    kept = λ db after u e. a.apart db after (ground arith) (ground arith);
  }

  snapshot_insert :
      (channel_id sender_id : String) (recipient_id : Option String) (seq at : ℕ)
      → Keeps r (insert_delivery_snapshot channel_id sender_id recipient_id seq at)
  unfolding insert_delivery_snapshot
  snapshot_insert channel_id sender_id recipient_id seq at = search (keeping, deliveries_insert)

  channel_reads : (channel_id : String) → Keeps r (channel_row channel_id)
  unfolding channel_row
  channel_reads channel_id = search (keeping)

  member_reads : (channel_id agent_id : String) → Keeps r (ensure_member channel_id agent_id)
  unfolding ensure_member
  member_reads channel_id agent_id = search (keeping)

  recipient_reads :
      (channel_id : String) (recipient_id : Option String)
      → Keeps r (ensure_recipient channel_id recipient_id)
  unfolding ensure_recipient
  recipient_reads channel_id none = search (keeping)
  recipient_reads channel_id (some agent_id) = search (member_reads)

  pub message_inserts :
      (id : String) (at : ℕ) (channel_id : String) (input : CreateMessage)
      → Keeps r (insert_message id at channel_id input)
  unfolding insert_message
  message_inserts id at channel_id input =
      search
        (keeping, channel_reads, member_reads, recipient_reads, messages_insert, snapshot_insert)
        depth 9

  key_reads : (key : Option String) → Keeps r (validate_idempotency_key key)
  unfolding validate_idempotency_key
  key_reads none = search (keeping)
  key_reads (some key) = search (keeping)

  new_appends :
      (id : String) (at : ℕ) (channel_id : String) (input : CreateMessage)
      → Keeps r (append_new id at channel_id input)
  unfolding append_new
  new_appends id at channel_id input = search (keeping, message_inserts)

  recognise_reads :
      (row : MessageRow) (channel_id : String) (input : CreateMessage)
      → Keeps r (recognise row channel_id input)
  unfolding recognise
  recognise_reads row channel_id input = search (keeping)

  pub append_apart :
      (id : String) (at : ℕ) (channel_id : String) (input : CreateMessage)
      → Keeps r (append_message_in_transaction id at channel_id input)
  unfolding append_message_in_transaction
  append_apart id at channel_id input = bind (guards _ _) λ _.
      bind (key_reads input.idempotency_key) λ _. bind gets λ db.
        option (repeated db input) (new_appends id at channel_id input)
          λ row. recognise_reads row channel_id input
