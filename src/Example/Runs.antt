-- ===== src/Example/Runs.antt =====
-- The runs on which the theorems are applied, each a transaction that commits.
use fleetd.Base.{if◌then◌else◌, ◌==◌, ℕ, Bool, true, false, ◌≡◌, refl, none, some, String, List}
use fleetd.Base.Text.{is_blank, decimal}
use fleetd.Db.{message_from_row, Db}
use fleetd.Db.Statements.{update_deliveries, update_invocations}
use fleetd.Db.Tx.{to_i64, checked_add}
use fleetd.Error.{Result, ok}
use fleetd.Example.Data.{outcome, commits, request, quiet, delivered, working, parked}
use fleetd.Execution.Invocation.{
  invocation_from_row, invocation_by_id, invocation_with_delivery, validate_static_fence,
  validate_live_lease, validate_invocation_fence, Invocation,
}
use fleetd.Execution.Invocation.Arm.{
  validate_arm, set_armed, arm_reserved, arm_as, arm_invocation_transaction,
}
use fleetd.Execution.Invocation.Complete.{
  validate_completion, result_key, result_input, ensure_result_key_unused,
  acknowledge_invocation_delivery, set_completed, publish_result, complete_as,
  complete_invocation_transaction, ensure_retry_is_safe, set_terminal, terminalize_invocation,
  InvocationCompletion,
}
use fleetd.Execution.Invocation.Recover.{
  lapsed, lapsed_delivery, expired_reservation, terminalize_expired_reservations, expired_armed,
  lapses, expiry_reason, park_expired_armed_invocation, park_all,
  recover_expired_invocations_transaction, insert_distinct, expired_agents, recover_agents,
  recover_all_expired_invocations,
}
use fleetd.Execution.Invocation.Reserve.{
  new_invocation, insert_invocation, reserve_row, reserve_rows, reserve_leased,
  reserve_invocations_filtered,
}
use fleetd.Execution.Session.Turn.{
  ensure_invocation_not_active_on_session, ensure_bound_turn_allows_delivery_settlement,
  mark_expired_session_turn_uncertain, recovery_row, retire_uncertain_session_for_delivery_block,
}
use fleetd.Execution.Settlement.{
  claim_leased, claim_deliveries, acknowledge_delivery, retry_delivery, block_new, block_delivery,
  resolve_delivery_block, ClaimBatch,
}
use fleetd.Kernel.Delivery.{
  key_matches, in_window, leased_row, set_acknowledged, set_retry, set_blocked, settle,
  mark_acknowledged, mark_retry, mark_blocked, block_expired_lease, acknowledge_leased_seq,
  settle_miss, ensure_agent,
}
use fleetd.Kernel.Delivery.Block.{
  record_block, insert_block_record, blocked_delivery_from_row, blocked_delivery_by_id,
  resolution_row, resolution_is_replay, set_requeued, set_dead, resolve_row_as,
  resolve_delivery_row, set_resolved, mark_block_resolved, apply_resolution,
  resolve_delivery_block_transaction, BlockedDelivery,
}
use fleetd.Kernel.Delivery.Claim.{
  kind_accepted, claimable, set_leased, chosen, lease_claimable, held, with_messages,
  delivery_from_row, leased_batch,
}
use fleetd.Kernel.Delivery.Validate.{
  validate_claim, validate_token, validate_retry, validate_evidence, validate_block,
  validate_resolution,
}
use fleetd.Kernel.Message.{
  validate_idempotency_key, message_matches_input, channel_row, ensure_member, ensure_recipient,
  is_recipient, new_delivery, snapshot, insert_deliveries, insert_delivery_snapshot, message_row,
  insert_message_row, insert_message, append_new, recognise, append_message_in_transaction,
  AppendMessageResult,
}
use fleetd.Model.{
  InvocationState, RetryDelivery, BlockDelivery, ResolveDeliveryBlock, BlockResolution,
  ArmInvocation, CompleteInvocation, ClaimDeliveries,
}
use fleetd.Table.{update, count, find, select, insert_by, order_by, any}

abbrev pub later : RetryDelivery
later = record { lease_token = "lease-1"; retry_after_ms = 1000; error = some "busy" }

abbrev pub evidence : BlockDelivery
evidence = record { lease_token = "lease-1"; reason = "the harness crashed" }

abbrev pub decision : ResolveDeliveryBlock
decision = record {
  resolution = BlockResolution.requeue;
  retry_after_ms = 0;
  note = some "safe to run again";
}

abbrev pub tokens : ArmInvocation
tokens = record { lease_token = "lease-1"; fence_token = "fence-1" }

abbrev pub answer : CompleteInvocation
answer = record {
  lease_token = "lease-1";
  fence_token = "fence-1";
  kind = "result";
  payload = "{}";
}

abbrev pub claim : ClaimDeliveries
claim = record { limit = 10; lease_duration_ms = 80 }

-- The identifiers that a reservation draws.
abbrev pub draws : ℕ → String
draws n = if n == 0 then "lease-2" else if n == 1 then "i-2" else "fence-2"

abbrev pub acknowledging : Result (Unit {0} × Db)
acknowledging =
    acknowledge_delivery "worker" "m-1" "lease-1" 50 (working InvocationState.dispatch_armed)

abbrev pub retrying : Result (Unit {0} × Db)
retrying = retry_delivery "worker" "m-1" later 50 (working InvocationState.reserved)

abbrev pub blocking : Result ((BlockedDelivery × Bool) × Db)
blocking = block_delivery "worker" "m-1" evidence 50 (working InvocationState.dispatch_armed)

abbrev pub resolving : Result (Unit {0} × Db)
resolving = resolve_delivery_block 1 decision 60 parked

abbrev pub arming : Result (Invocation × Db)
arming = arm_invocation_transaction "worker" "i-1" tokens 50 (working InvocationState.reserved)

abbrev pub completing : Result ((InvocationCompletion × Bool) × Db)
completing =
    complete_invocation_transaction "m-2" 50 "worker" "i-1" answer 50 false
      (working InvocationState.dispatch_armed)

abbrev pub claiming : Result (ClaimBatch × Db)
claiming = claim_deliveries "lease-1" "worker" claim 20 delivered

abbrev pub reserving : Result (List Invocation × Db)
reserving = reserve_invocations_filtered draws "worker" claim none 20 delivered

abbrev pub recovering : Result (ℕ × Db)
recovering =
    recover_expired_invocations_transaction "worker" 100 (working InvocationState.dispatch_armed)

abbrev pub reconciling : Result (ℕ × Db)
reconciling =
    recover_all_expired_invocations (working InvocationState.dispatch_armed) 100
      (working InvocationState.dispatch_armed)

abbrev pub appending : Result (AppendMessageResult × Db)
appending = append_message_in_transaction "m-1" 10 "tasks" request quiet

-- Each of them commits.
pub runs :
    (commits acknowledging ≡ true)
    × (commits retrying ≡ true)
    × (commits blocking ≡ true)
    × (commits resolving ≡ true)
    × (commits arming ≡ true)
    × (commits completing ≡ true)
    × (commits claiming ≡ true)
    × (commits reserving ≡ true)
    × (commits recovering ≡ true)
    × (commits reconciling ≡ true)
    × (commits appending ≡ true)
unfolding message_from_row update count find select insert_by order_by any to_i64 checked_add
    update_deliveries update_invocations invocation_from_row invocation_by_id
    invocation_with_delivery validate_static_fence validate_live_lease validate_invocation_fence
    claim_leased claim_deliveries acknowledge_delivery retry_delivery block_new block_delivery
    resolve_delivery_block ensure_invocation_not_active_on_session
    ensure_bound_turn_allows_delivery_settlement mark_expired_session_turn_uncertain recovery_row
    retire_uncertain_session_for_delivery_block lapsed lapsed_delivery expired_reservation
    terminalize_expired_reservations expired_armed lapses expiry_reason
    park_expired_armed_invocation park_all recover_expired_invocations_transaction insert_distinct
    expired_agents recover_agents recover_all_expired_invocations validate_completion result_key
    result_input ensure_result_key_unused acknowledge_invocation_delivery set_completed
    publish_result complete_as complete_invocation_transaction ensure_retry_is_safe set_terminal
    terminalize_invocation new_invocation insert_invocation reserve_row reserve_rows reserve_leased
    reserve_invocations_filtered validate_arm set_armed arm_reserved arm_as
    arm_invocation_transaction is_blank decimal validate_idempotency_key message_matches_input
    channel_row ensure_member ensure_recipient is_recipient new_delivery snapshot insert_deliveries
    insert_delivery_snapshot message_row insert_message_row insert_message append_new recognise
    append_message_in_transaction key_matches in_window leased_row set_acknowledged set_retry
    set_blocked settle mark_acknowledged mark_retry mark_blocked block_expired_lease
    acknowledge_leased_seq settle_miss ensure_agent validate_claim validate_token validate_retry
    validate_evidence validate_block validate_resolution kind_accepted claimable set_leased chosen
    lease_claimable held with_messages delivery_from_row leased_batch record_block
    insert_block_record blocked_delivery_from_row blocked_delivery_by_id resolution_row
    resolution_is_replay set_requeued set_dead resolve_row_as resolve_delivery_row set_resolved
    mark_block_resolved apply_resolution resolve_delivery_block_transaction
runs = (refl, refl, refl, refl, refl, refl, refl, refl, refl, refl, refl)

-- The completion is a new one.
pub completed_new :
    completing ≡ ok (((outcome completing runs.5).0.0, true), (outcome completing runs.5).1)
unfolding message_from_row update count find select insert_by order_by any to_i64 checked_add
    update_deliveries update_invocations invocation_from_row invocation_by_id
    invocation_with_delivery validate_static_fence validate_live_lease validate_invocation_fence
    claim_leased claim_deliveries acknowledge_delivery retry_delivery block_new block_delivery
    resolve_delivery_block ensure_invocation_not_active_on_session
    ensure_bound_turn_allows_delivery_settlement mark_expired_session_turn_uncertain recovery_row
    retire_uncertain_session_for_delivery_block lapsed lapsed_delivery expired_reservation
    terminalize_expired_reservations expired_armed lapses expiry_reason
    park_expired_armed_invocation park_all recover_expired_invocations_transaction insert_distinct
    expired_agents recover_agents recover_all_expired_invocations validate_completion result_key
    result_input ensure_result_key_unused acknowledge_invocation_delivery set_completed
    publish_result complete_as complete_invocation_transaction ensure_retry_is_safe set_terminal
    terminalize_invocation new_invocation insert_invocation reserve_row reserve_rows reserve_leased
    reserve_invocations_filtered validate_arm set_armed arm_reserved arm_as
    arm_invocation_transaction is_blank decimal validate_idempotency_key message_matches_input
    channel_row ensure_member ensure_recipient is_recipient new_delivery snapshot insert_deliveries
    insert_delivery_snapshot message_row insert_message_row insert_message append_new recognise
    append_message_in_transaction key_matches in_window leased_row set_acknowledged set_retry
    set_blocked settle mark_acknowledged mark_retry mark_blocked block_expired_lease
    acknowledge_leased_seq settle_miss ensure_agent validate_claim validate_token validate_retry
    validate_evidence validate_block validate_resolution kind_accepted claimable set_leased chosen
    lease_claimable held with_messages delivery_from_row leased_batch record_block
    insert_block_record blocked_delivery_from_row blocked_delivery_by_id resolution_row
    resolution_is_replay set_requeued set_dead resolve_row_as resolve_delivery_row set_resolved
    mark_block_resolved apply_resolution resolve_delivery_block_transaction
completed_new = refl
