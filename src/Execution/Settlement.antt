-- ===== src/Execution/Settlement.antt =====
-- crates/execution/src/settlement.rs: a delivery and the invocation that fences it settle together
-- or not at all. Each function is the body of one transaction.
use fleetd.Base.{ℕ, Bool, true, false, not, Option, none, some, String, List, str_eq, if◌then◌else◌}
use fleetd.Error.{conflict, lease_conflict}
use fleetd.Model.{
  Settlement, ExecutionCertainty, ClaimDeliveries, RetryDelivery, BlockDelivery,
  ResolveDeliveryBlock,
}
use fleetd.Db.{Db}
use fleetd.Db.Tx.{Tx, ◌>>=◌, ◌>>◌, pure, fail, fail_if, get, put, lift, to_i64, checked_add}
use fleetd.Kernel.Delivery.{mark_acknowledged, mark_retry, mark_blocked, settle_miss, ensure_agent}
use fleetd.Kernel.Delivery.Validate.{validate_claim, validate_token, validate_retry, validate_block}
use fleetd.Kernel.Delivery.Claim.{Delivery, lease_claimable, leased_batch}
use fleetd.Kernel.Delivery.Block.{
  BlockedDelivery, insert_block_record, blocked_delivery_by_id, blocked_delivery_by_lease,
  resolve_delivery_block_transaction,
}
use fleetd.Execution.Session.Turn.{retire_uncertain_session_for_delivery_block}
use fleetd.Execution.Invocation.Complete.{ensure_retry_is_safe, terminalize_invocation}
use fleetd.Execution.Invocation.Recover.{recover_expired_invocations_transaction}

pub record ClaimBatch : Type 0 where
  pub lease_token : String
  pub lease_expires_at_ms : ℕ
  pub deliveries : List Delivery

unfoldable pub claim_leased : String → String → ℕ → ℕ → ℕ → Tx (List Delivery)
claim_leased agent_id lease_token lease_expires_at_ms now limit = do
  recovered ← recover_expired_invocations_transaction agent_id now
  lease_claimable agent_id lease_token lease_expires_at_ms now limit none
  leased_batch agent_id lease_token

-- `lease_token` is the value of `Uuid::new_v4`.
unfoldable pub claim_deliveries : String → String → ClaimDeliveries → ℕ → Tx ClaimBatch
claim_deliveries lease_token agent_id input now = do
  lift (validate_claim input)
  lease_duration ← to_i64 "lease duration is too large" input.lease_duration_ms
  lease_expires_at_ms ← checked_add "lease expiry overflowed" now lease_duration
  ensure_agent agent_id
  deliveries ← claim_leased agent_id lease_token lease_expires_at_ms now input.limit
  pure (record {
    lease_token = lease_token;
    lease_expires_at_ms = lease_expires_at_ms;
    deliveries = deliveries;
  })

-- A settlement that moved no row is rolled back, and read again for a replay.
unfoldable pub acknowledge_delivery : String → String → String → ℕ → Tx (Unit {0})
acknowledge_delivery agent_id message_id lease_token now = do
  lift (validate_token lease_token)
  before ← get
  moved ← mark_acknowledged agent_id message_id lease_token now
  if moved
      then terminalize_invocation agent_id message_id lease_token ExecutionCertainty.outcome_known
          "acknowledged" now
      else do put before; settle_miss agent_id message_id lease_token Settlement.acknowledged

unfoldable pub retry_delivery : String → String → RetryDelivery → ℕ → Tx (Unit {0})
retry_delivery agent_id message_id input now = do
  lift (validate_retry input)
  retry_delay ← to_i64 "retry delay is too large" input.retry_after_ms
  available_at_ms ← checked_add "retry time overflowed" now retry_delay
  before ← get
  ensure_retry_is_safe agent_id message_id input.lease_token
  moved ← mark_retry agent_id message_id input available_at_ms now
  if moved
      then terminalize_invocation agent_id message_id input.lease_token
          ExecutionCertainty.not_started "retry" now
      else do put before; settle_miss agent_id message_id input.lease_token Settlement.retry

-- The first block of a lease.
unfoldable pub block_new : String → String → BlockDelivery → ℕ → Tx (BlockedDelivery × Bool)
block_new agent_id message_id input now = do
  block_id ← insert_block_record agent_id message_id input now
  terminalize_invocation agent_id message_id input.lease_token ExecutionCertainty.outcome_unknown
      "blocked" now
  blocked ← blocked_delivery_by_id block_id
  pure (blocked, true)

-- A repeat: the evidence must be the same. With no block of the lease the call is rolled back.
unfoldable pub block_again :
    Db
    → String
    → String
    → BlockDelivery
    → Option (BlockedDelivery × String)
    → Tx (BlockedDelivery × Bool)
block_again before agent_id message_id input (some (blocked, reason)) = do
  fail_if (not (str_eq reason input.reason))
      (conflict "lease was already blocked with different evidence")
  pure (blocked, false)
block_again before agent_id message_id input none = do
  put before
  settle_miss agent_id message_id input.lease_token Settlement.blocked
  fail (lease_conflict "blocked settlement evidence is missing")

unfoldable pub block_delivery : String → String → BlockDelivery → ℕ → Tx (BlockedDelivery × Bool)
block_delivery agent_id message_id input now = do
  lift (validate_block input)
  before ← get
  moved ← mark_blocked agent_id message_id input now
  if moved then block_new agent_id message_id input now else do
    existing ← blocked_delivery_by_lease agent_id message_id input.lease_token
    block_again before agent_id message_id input existing

unfoldable pub resolve_delivery_block : ℕ → ResolveDeliveryBlock → ℕ → Tx (Unit {0})
resolve_delivery_block block_id input now = do
  resolve_delivery_block_transaction block_id input now
  retired ← retire_uncertain_session_for_delivery_block block_id input.resolution now
  pure tt
