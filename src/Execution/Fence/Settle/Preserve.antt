-- ===== src/Execution/Fence/Settle/Preserve.antt =====
-- crates/execution/src/settlement.rs: the invocation fence under each settlement.
use fleetd.Base.{ℕ, ◌+◌, Bool, ◌≡◌, String, inl, inr, subst, sym}
use fleetd.Error.{ok}
use fleetd.Model.{ExecutionCertainty, RetryDelivery, BlockDelivery}
use fleetd.Db.{Db}
use fleetd.Kernel.Delivery.{set_acknowledged, set_retry, set_blocked}
use fleetd.Kernel.Delivery.Block.{BlockedDelivery}
use fleetd.Execution.Invocation.Complete.{set_terminal}
use fleetd.Execution.Settlement.{acknowledge_delivery, retry_delivery, block_delivery}
use fleetd.Execution.Fence.{IsFenced}
use fleetd.Execution.Fence.Settle.{
  settled-IsFenced, acknowledged-KeepsKey, retry-KeepsKey, blocked-KeepsKey, terminal-KeepsFence,
}
use fleetd.Execution.Fence.Settle.Effects.{acknowledge-effect, retry-effect}
use fleetd.Execution.Fence.Settle.Block.{block-effect}

-- The fence reads two tables.
pub IsFenced-tables :
    (a b : Db)
    → b.deliveries ≡ a.deliveries
    → b.invocations ≡ a.invocations
    → IsFenced a
    → IsFenced b
IsFenced-tables a b ds is v = record {
  fenced = rw (ds, is) v.fenced;
  single = rw is v.single;
  distinct = rw ds v.distinct;
}

module _ (agent_id message_id : String) (now : ℕ) (db after : Db) (v : IsFenced db) where
  -- An acknowledgement that succeeds, as a first one or as a replay, keeps the invocation fence:
  -- the invocation under the settled lease ends with it.
  pub acknowledge-IsFenced :
      (lease_token : String)
      → acknowledge_delivery agent_id message_id lease_token now db ≡ ok (tt, after)
      → IsFenced after
  acknowledge-IsFenced lease_token h =
      elim (acknowledge-effect agent_id message_id now db lease_token h) [
        | inl e ↦ subst IsFenced (sym e) v
        | inr e ↦ subst IsFenced (sym e) (
            settled-IsFenced db agent_id message_id lease_token now
              (set_acknowledged lease_token now)
              (set_terminal ExecutionCertainty.outcome_known "acknowledged" now)
              (acknowledged-KeepsKey lease_token now)
              (terminal-KeepsFence ExecutionCertainty.outcome_known "acknowledged" now) v)
      ]

  -- A retry that succeeds, as a first one or as a replay, keeps the invocation fence: the
  -- invocation under the released lease ends with it.
  pub retry-IsFenced :
      (input : RetryDelivery)
      → retry_delivery agent_id message_id input now db ≡ ok (tt, after)
      → IsFenced after
  retry-IsFenced input h = elim (retry-effect agent_id message_id now db input h) [
    | inl e ↦ subst IsFenced (sym e) v
    | inr e ↦ subst IsFenced (sym e) (
        settled-IsFenced db agent_id message_id input.lease_token now
          (set_retry input (now + input.retry_after_ms))
          (set_terminal ExecutionCertainty.not_started "retry" now)
          (retry-KeepsKey input (now + input.retry_after_ms))
          (terminal-KeepsFence ExecutionCertainty.not_started "retry" now) v)
  ]

  -- A block that succeeds, as a first one or as a replay, keeps the invocation fence: the
  -- invocation under the parked lease ends with it.
  pub block-IsFenced :
      (input : BlockDelivery) (result : BlockedDelivery × Bool)
      → block_delivery agent_id message_id input now db ≡ ok (result, after)
      → IsFenced after
  block-IsFenced input result h =
      elim (block-effect agent_id message_id input now db result after v.distinct h) [
        | inl e ↦ IsFenced-tables db after e.0 e.1 v
        | inr e ↦ IsFenced-tables _ after e.0 e.1 (
            settled-IsFenced db agent_id message_id input.lease_token now
              (set_blocked input.reason input.lease_token)
              (set_terminal ExecutionCertainty.outcome_unknown "blocked" now)
              (blocked-KeepsKey input.reason input.lease_token)
              (terminal-KeepsFence ExecutionCertainty.outcome_unknown "blocked" now) v)
      ]
