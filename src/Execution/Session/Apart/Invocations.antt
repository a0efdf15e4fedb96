-- ===== src/Execution/Session/Apart/Invocations.antt =====
-- crates/execution/src/invocation.rs: arming and completing leave the sessions alone.
use fleetd.Base.{ℕ, Bool, String}
use fleetd.Model.{InvocationState, CreateMessage, ArmInvocation, CompleteInvocation}
use fleetd.Db.{InvocationRow}
use fleetd.Db.Keeps.{Relation, Keeps, keeping, bind, guards, gets, option, pures}
use fleetd.Kernel.Delivery.{acknowledge_leased_seq}
use fleetd.Execution.Invocation.{
  Fenced, invocation_by_id, invocation_with_delivery, validate_static_fence, validate_live_lease,
  validate_invocation_fence,
}
use fleetd.Execution.Invocation.Arm.{validate_arm, arm_reserved, arm_as, arm_invocation_transaction}
use fleetd.Execution.Invocation.Complete.{
  validate_completion, message_by_seq, completed_replay, ensure_result_key_unused,
  acknowledge_invocation_delivery, publish_result, complete_as, complete_invocation_transaction,
}
use fleetd.Execution.Session.Turn.{turn_of, ensure_invocation_not_active_on_session}
use fleetd.Execution.Session.Apart.{IsApart, invocation_updates, settles, message_inserts}

module _ {r : Relation} (a : IsApart r) where
  pub invocation_reads : (invocation_id : String) → Keeps r (invocation_by_id invocation_id)
  unfolding invocation_by_id
  invocation_reads invocation_id = search (keeping)

  fenced_reads :
      (agent_id invocation_id : String) → Keeps r (invocation_with_delivery agent_id invocation_id)
  unfolding invocation_with_delivery
  fenced_reads agent_id invocation_id = search (keeping) depth 9

  static_reads :
      (i : InvocationRow) (lease_token fence_token : String)
      → Keeps r (validate_static_fence i lease_token fence_token)
  unfolding validate_static_fence
  static_reads i lease_token fence_token = search (keeping)

  live_reads :
      (row : Fenced) (lease_token : String) (now : ℕ)
      → Keeps r (validate_live_lease row lease_token now)
  unfolding validate_live_lease
  live_reads row lease_token now = search (keeping)

  fence_reads :
      (row : Fenced) (input : ArmInvocation) (now : ℕ)
      → Keeps r (validate_invocation_fence row input now)
  unfolding validate_invocation_fence
  fence_reads row input now = search (keeping, static_reads, live_reads)

  arm_checks :
      (invocation_id : String) (input : ArmInvocation) → Keeps r (validate_arm invocation_id input)
  unfolding validate_arm
  arm_checks invocation_id input = search (keeping)

  arm_as_apart :
      (state : InvocationState) (agent_id invocation_id : String) (now : ℕ)
      → Keeps r (arm_as state agent_id invocation_id now)
  unfolding arm_as arm_reserved
  arm_as_apart InvocationState.reserved agent_id invocation_id now =
      search (keeping, invocation_updates)
  arm_as_apart InvocationState.dispatch_armed agent_id invocation_id now = search (keeping)
  arm_as_apart InvocationState.terminal agent_id invocation_id now = search (keeping)

  pub arm_apart :
      (agent_id invocation_id : String) (input : ArmInvocation) (now : ℕ)
      → Keeps r (arm_invocation_transaction agent_id invocation_id input now)
  unfolding arm_invocation_transaction
  arm_apart agent_id invocation_id input now =
      search (keeping, arm_checks, fenced_reads, fence_reads, arm_as_apart, invocation_reads) depth
        9

  completion_checks :
      (invocation_id : String) (input : CompleteInvocation)
      → Keeps r (validate_completion invocation_id input)
  unfolding validate_completion
  completion_checks invocation_id input = search (keeping) depth 9

  session_reads :
      (invocation_id : String) → Keeps r (ensure_invocation_not_active_on_session invocation_id)
  unfolding ensure_invocation_not_active_on_session
  session_reads invocation_id =
      bind gets λ db. option (turn_of db invocation_id) (pures _) λ t. guards _ _

  replay_reads :
      (invocation_id : String) (row : Fenced) (expected : CreateMessage)
      → Keeps r (completed_replay invocation_id row expected)
  unfolding completed_replay message_by_seq
  replay_reads invocation_id row expected = search (keeping, invocation_reads) depth 9

  key_unused_reads :
      (agent_id invocation_id : String) → Keeps r (ensure_result_key_unused agent_id invocation_id)
  unfolding ensure_result_key_unused
  key_unused_reads agent_id invocation_id = search (keeping)

  input_acknowledges :
      (row : Fenced) (agent_id lease_token : String) (now : ℕ)
      → Keeps r (acknowledge_invocation_delivery row agent_id lease_token now)
  unfolding acknowledge_invocation_delivery acknowledge_leased_seq
  input_acknowledges row agent_id lease_token now = search (keeping, settles)

  publish_apart :
      (id : String) (at : ℕ) (agent_id invocation_id : String) (row : Fenced)
      (expected : CreateMessage) (token : String) (now : ℕ)
      → Keeps r (publish_result id at agent_id invocation_id row expected token now)
  unfolding publish_result
  publish_apart id at agent_id invocation_id row expected token now =
      search
        (
          keeping, live_reads, key_unused_reads, message_inserts, input_acknowledges,
          invocation_updates, invocation_reads,
        )
        depth 11

  complete_as_apart :
      (state : InvocationState) (id : String) (at : ℕ) (agent_id invocation_id : String)
      (row : Fenced) (expected : CreateMessage) (token : String) (now : ℕ)
      → Keeps r (complete_as state id at agent_id invocation_id row expected token now)
  unfolding complete_as
  complete_as_apart InvocationState.reserved id at agent_id invocation_id row expected token now =
      search (keeping)
  complete_as_apart InvocationState.dispatch_armed id at agent_id invocation_id row expected token
        now =
      search (keeping, publish_apart)
  complete_as_apart InvocationState.terminal id at agent_id invocation_id row expected token now =
      search (keeping, replay_reads)

  pub complete_apart :
      (id : String) (at : ℕ) (agent_id invocation_id : String) (input : CompleteInvocation)
      (now : ℕ) (allow_active : Bool)
      → Keeps r
          (complete_invocation_transaction id at agent_id invocation_id input now allow_active)
  unfolding complete_invocation_transaction
  complete_apart id at agent_id invocation_id input now allow_active =
      search
        (keeping, completion_checks, session_reads, fenced_reads, static_reads, complete_as_apart)
        depth 9
