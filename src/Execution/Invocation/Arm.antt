-- ===== src/Execution/Invocation/Arm.antt =====
-- crates/execution/src/invocation.rs: the write-ahead dispatch fence.
use fleetd.Base.{ℕ, Bool, ◌&&◌, not, some, String, ◌==◌, str_eq}
use fleetd.Error.{conflict}
use fleetd.Model.{InvocationState, ArmInvocation}
use fleetd.Db.{InvocationRow}
use fleetd.Db.Statements.{update_invocations}
use fleetd.Db.Tx.{Tx, ◌>>=◌, ◌>>◌, pure, fail, fail_if}
use fleetd.Execution.Invocation.{
  Invocation, by_id, invocation_by_id, invocation_with_delivery, validate_invocation_fence,
  require_text, is_reserved,
}

unfoldable pub validate_arm : String → ArmInvocation → Tx (Unit {0})
validate_arm invocation_id input = do
  require_text "invocation ID" invocation_id
  require_text "lease token" input.lease_token
  require_text "fence token" input.fence_token

abbrev pub reserved_row : String → String → InvocationRow → Bool
reserved_row agent_id invocation_id i =
    by_id invocation_id i && str_eq i.agent_id agent_id && is_reserved i.state

unfoldable pub set_armed : ℕ → InvocationRow → InvocationRow
set_armed now i = record i {
  state = InvocationState.dispatch_armed;
  dispatch_armed_at_ms = some now;
}

unfoldable pub arm_reserved : String → String → ℕ → Tx (Unit {0})
arm_reserved agent_id invocation_id now = do
  affected ← update_invocations (reserved_row agent_id invocation_id) (set_armed now)
  fail_if (not (affected == 1)) (conflict "invocation changed while dispatch was armed")

-- The `match` on the stored state.
unfoldable pub arm_as : InvocationState → String → String → ℕ → Tx (Unit {0})
arm_as InvocationState.reserved agent_id invocation_id now = arm_reserved agent_id invocation_id now
arm_as InvocationState.dispatch_armed agent_id invocation_id now = pure tt
arm_as InvocationState.terminal agent_id invocation_id now =
    fail (conflict "terminal invocation cannot be dispatched")

unfoldable pub arm_invocation_transaction : String → String → ArmInvocation → ℕ → Tx Invocation
arm_invocation_transaction agent_id invocation_id input now = do
  validate_arm invocation_id input
  row ← invocation_with_delivery agent_id invocation_id
  validate_invocation_fence row input now
  arm_as row.invocation.state agent_id invocation_id now
  invocation_by_id invocation_id
