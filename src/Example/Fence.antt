-- ===== src/Example/Fence.antt =====
-- The invocation fence on concrete databases.
use mathlib.Core.List.{Mem}
use fleetd.Base.{◌&&◌, str_eq, ◌≡◌, refl, none, All, holds_text, false, true}
use fleetd.Base.Text.{is_blank}
use fleetd.Table.{find, select, any, count}
use fleetd.Model.{InvocationState}
use fleetd.Db.{Db}
use fleetd.Db.Tx.{run}
use fleetd.Kernel.Message.{
  append_message_in_transaction, validate_idempotency_key, append_new, insert_message, channel_row,
  ensure_member, ensure_recipient, insert_message_row, insert_delivery_snapshot, insert_deliveries,
  snapshot, is_recipient, new_delivery, message_row,
}
use fleetd.Execution.Invocation.Reserve.{reserve_invocations_filtered}
use fleetd.Execution.Invocation.Recover.{recover_all_expired_invocations}
use fleetd.Execution.Fence.{IsFenced, is_fenced, rivals}
use fleetd.Execution.Fence.Settle.Preserve.{acknowledge-IsFenced, retry-IsFenced, block-IsFenced}
use fleetd.Execution.Fence.Arm.Outcome.{Arms, arm-Arms, is_own}
use fleetd.Execution.Fence.Arm.Retry.{arm-retry}
use fleetd.Base.{some}
use fleetd.Db.{of_message}
use fleetd.Db.Demands.{Refuses}
use fleetd.Execution.Settlement.{retry_delivery}
use fleetd.Example.Data.{attempt}
use fleetd.Execution.Fence.Resolve.{resolve-IsFenced}
use fleetd.Execution.Fence.Recover.Sweep.{due}
use fleetd.Execution.Fence.Recover.Agents.{recover-clears, reconcile-clears, overdue}
use fleetd.Execution.Fence.Lease.{claim-IsFenced}
use fleetd.Execution.Fence.Reserve.Fresh.{reserve-IsFenced}
use fleetd.Execution.Fence.Append.{append-IsFenced}
use fleetd.Error.{ok}
use fleetd.Base.{arith}
use fleetd.Execution.Invocation.Complete.{complete_invocation_transaction}
use fleetd.Execution.Fence.Complete.Again.{complete-again}
use fleetd.Execution.Fence.Complete.Outcome.{Publishes, complete-Publishes}
use fleetd.Execution.Fence.Steps.{Reaches-exclusive}
use fleetd.Execution.Steps.{Reaches, start, next, append, reserve, reconcile}
use fleetd.Example.Data.{
  outcome, outcome_eq, request, quiet, delivered, working, parked, delivered-IsFenced,
  quiet-IsFenced, reserved-IsFenced, armed-IsFenced, parked-IsFenced,
}
use fleetd.Example.Runs.{
  completed_new, runs, later, evidence, decision, tokens, answer, claim, draws, acknowledging,
  retrying, blocking, resolving, arming, completing, claiming, reserving, recovering, reconciling,
  appending,
}

acknowledge-IsFenced_example : IsFenced (outcome acknowledging runs.0).1
acknowledge-IsFenced_example =
    acknowledge-IsFenced "worker" "m-1" 50 (working InvocationState.dispatch_armed)
      (outcome acknowledging runs.0).1 armed-IsFenced "lease-1" (outcome_eq acknowledging runs.0)

retry-IsFenced_example : IsFenced (outcome retrying runs.1).1
retry-IsFenced_example =
    retry-IsFenced "worker" "m-1" 50 (working InvocationState.reserved) (outcome retrying runs.1).1
      reserved-IsFenced later (outcome_eq retrying runs.1)

block-IsFenced_example : IsFenced (outcome blocking runs.2).1
block-IsFenced_example =
    block-IsFenced "worker" "m-1" 50 (working InvocationState.dispatch_armed)
      (outcome blocking runs.2).1 armed-IsFenced evidence (outcome blocking runs.2).0
      (outcome_eq blocking runs.2)

arm-Arms_example :
    Arms "worker" "i-1" tokens 50 (working InvocationState.reserved) (outcome arming runs.4).1
arm-Arms_example =
    arm-Arms "worker" "i-1" tokens 50 (working InvocationState.reserved) (outcome arming runs.4).1
      (outcome arming runs.4).0 (outcome_eq arming runs.4)

own_found :
    find (is_own "worker" "i-1") (working InvocationState.reserved).invocations
    ≡ some (attempt InvocationState.reserved)
unfolding find
own_found = refl

own_message :
    of_message
      (working InvocationState.reserved).messages
      "m-1"
      (attempt InvocationState.reserved).message_seq
    ≡ true
unfolding find
own_message = refl

arm-retry_example : Refuses (retry_delivery "worker" "m-1" later 60) (outcome arming runs.4).1
arm-retry_example =
    arm-retry "worker" "i-1" "m-1" tokens later 50 60 (working InvocationState.reserved)
      (outcome arming runs.4).1 (outcome arming runs.4).0 (attempt InvocationState.reserved)
      reserved-IsFenced own_found own_message refl (outcome_eq arming runs.4)

resolve-IsFenced_example : IsFenced (outcome resolving runs.3).1
resolve-IsFenced_example =
    resolve-IsFenced 1 decision 60 parked (outcome resolving runs.3).1 parked-IsFenced
      (outcome_eq resolving runs.3)

claim-IsFenced_example : IsFenced (outcome claiming runs.6).1
claim-IsFenced_example =
    claim-IsFenced "worker" "lease-1" 20 claim delivered (outcome claiming runs.6).1
      (outcome claiming runs.6).0 delivered-IsFenced (outcome_eq claiming runs.6)

reserve-IsFenced_example : IsFenced (outcome reserving runs.7).1
reserve-IsFenced_example =
    reserve-IsFenced draws "worker" 20 claim none delivered (outcome reserving runs.7).1
      (outcome reserving runs.7).0 delivered-IsFenced (refl, tt) (outcome_eq reserving runs.7)

append-IsFenced_example : IsFenced (outcome appending runs.10).1
append-IsFenced_example =
    append-IsFenced "m-1" 10 "tasks" request quiet (outcome appending runs.10).1
      (outcome appending runs.10).0 quiet-IsFenced (outcome_eq appending runs.10)

recover-clears_example :
    IsFenced (outcome recovering runs.8).1
    × All (λ i. due "worker" 100 i ≡ false) (outcome recovering runs.8).1.invocations
recover-clears_example =
    recover-clears "worker" 100 (working InvocationState.dispatch_armed)
      (outcome recovering runs.8).1 (outcome recovering runs.8).0 armed-IsFenced
      (outcome_eq recovering runs.8)

reconcile-clears_example :
    IsFenced (outcome reconciling runs.9).1
    × All
        (λ i.
          All
            (λ j. (overdue 100 i && overdue 100 j && str_eq i.agent_id j.agent_id) ≡ false)
            (working InvocationState.dispatch_armed).invocations)
        (outcome reconciling runs.9).1.invocations
    × All
        (λ i. overdue 100 i ≡ true → Mem i (working InvocationState.dispatch_armed).invocations)
        (outcome reconciling runs.9).1.invocations
reconcile-clears_example =
    reconcile-clears 100 (working InvocationState.dispatch_armed) (outcome reconciling runs.9).0
      (working InvocationState.dispatch_armed) (outcome reconciling runs.9).1 armed-IsFenced
      armed-IsFenced (outcome_eq reconciling runs.9)

-- A message is appended, its delivery is reserved, and the reservation expires.
abbrev appended : Db
appended = (run (append_message_in_transaction "m-1" 10 "tasks" request) quiet).1

abbrev reserved : Db
reserved = (run (reserve_invocations_filtered draws "worker" claim none 20) appended).1

abbrev reconciled : Db
reconciled = (run (recover_all_expired_invocations reserved 100) reserved).1

fresh : All (λ d. holds_text d.lease_token (draws 0) ≡ false) appended.deliveries
unfolding run append_message_in_transaction validate_idempotency_key is_blank append_new
    insert_message channel_row ensure_member ensure_recipient insert_message_row
    insert_delivery_snapshot insert_deliveries snapshot is_recipient new_delivery message_row select
    any count find
fresh = (refl, tt)

path : Reaches quiet reconciled
path =
    next
      (next (next start (append "m-1" 10 "tasks" request))
        (reserve draws "worker" claim none 20 fresh))
      (reconcile reserved 100)

Reaches-exclusive_example :
    All (λ i. is_fenced reconciled.deliveries i ≡ true) reconciled.invocations
    × All (λ i. All (λ j. rivals i j ≡ true → i ≡ j) reconciled.invocations) reconciled.invocations
Reaches-exclusive_example = Reaches-exclusive quiet reconciled refl refl path

complete-Publishes_example :
    Publishes "m-2" 50 "worker" "i-1" answer 50
      (working InvocationState.dispatch_armed)
      (outcome completing runs.5).1
      (outcome completing runs.5).0.0
complete-Publishes_example =
    complete-Publishes "m-2" 50 "worker" "i-1" 50 answer false
      (working InvocationState.dispatch_armed) (outcome completing runs.5).1
      (outcome completing runs.5).0.0 armed-IsFenced completed_new

complete-again_example :
    complete_invocation_transaction "m-3" 90 "worker" "i-1" answer 90 false
      (outcome completing runs.5).1
    ≡ ok (((outcome completing runs.5).0.0, false), (outcome completing runs.5).1)
complete-again_example =
    complete-again "m-2" 50 "worker" "i-1" 50 "m-3" 90 90 answer false
      (working InvocationState.dispatch_armed) (outcome completing runs.5).1
      (outcome completing runs.5).0.0 armed-IsFenced (omega arith, tt) completed_new
