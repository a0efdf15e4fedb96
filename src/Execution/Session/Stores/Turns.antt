-- ===== src/Execution/Session/Stores/Turns.antt =====
-- crates/execution/src/session_binding.rs: turns, recovery and an operator's decision keep what
-- their statements keep.
use fleetd.Base.{ℕ, String}
use fleetd.Model.{
  BindingState, BlockResolution, SessionPersistence, ArmInvocation, CompleteInvocation,
}
use fleetd.Db.{BindingRow, TurnRow, InvocationRow}
use fleetd.Db.Keeps.{Relation, Keeps, keeping, bind, gets, option, pures, guards, lifts}
use fleetd.Execution.Session.{Binding}
use fleetd.Execution.Session.Reads.{reading}
use fleetd.Execution.Session.Turn.{
  turn_of, binding_of, fence_expired_turn, mark_expired_session_turn_uncertain,
  retire_uncertain_binding, recovery_row, retire_uncertain_session_for_delivery_block,
}
use fleetd.Execution.Session.Retire.{mark_session_invocation_uncertain, mark_uncertain_as}
use fleetd.Execution.Session.Dispatch.{
  activate_binding_turn, arm_session_invocation, settle_quiescent_turn, complete_session_invocation,
}
use fleetd.Execution.Session.Stores.{Stores}

module _ {r : Relation} (st : Stores r) where
  fences :
      (t : TurnRow) (s : BindingRow) (invocation_id reason : String) (now : ℕ)
      → Keeps r (fence_expired_turn t s invocation_id reason now)
  unfolding fence_expired_turn
  fences t s invocation_id reason now = search (keeping, st.marked)

  pub expired_keeps :
      (invocation_id reason : String) (now : ℕ)
      → Keeps r (mark_expired_session_turn_uncertain invocation_id reason now)
  unfolding mark_expired_session_turn_uncertain
  expired_keeps invocation_id reason now = bind gets λ db.
      option (turn_of db invocation_id) (pures _)
        λ t. option (binding_of db t) (pures _) λ s. fences t s invocation_id reason now

  retires :
      (i : InvocationRow) (t : TurnRow) (s : BindingRow) (reason : String) (now : ℕ)
      → Keeps r (retire_uncertain_binding i t s reason now)
  unfolding retire_uncertain_binding
  retires i t s reason now = search (keeping, st.recovered)

  pub ended_keeps :
      (block_id : ℕ) (resolution : BlockResolution) (now : ℕ)
      → Keeps r (retire_uncertain_session_for_delivery_block block_id resolution now)
  unfolding retire_uncertain_session_for_delivery_block
  ended_keeps block_id resolution now =
      bind gets
        λ db. option (recovery_row db block_id) (pures _) λ row. retires row.0 row.1 row.2 _ now

  module _ (agent_id invocation_id : String) (binding : Binding) (now : ℕ) where
    marks_as :
        (state : BindingState) (row : BindingRow) (reason : String)
        → Keeps r (mark_uncertain_as state row agent_id invocation_id binding reason now)
    unfolding mark_uncertain_as
    marks_as BindingState.opening row reason = search (keeping)
    marks_as BindingState.ready row reason = search (keeping)
    marks_as BindingState.active row reason = search (st.marked)
    marks_as BindingState.uncertain row reason = search (keeping)
    marks_as BindingState.retired row reason = search (keeping)

    pub mark_keeps :
        (reason : String)
        → Keeps r (mark_session_invocation_uncertain agent_id invocation_id binding reason now)
    unfolding mark_session_invocation_uncertain
    mark_keeps reason = search (keeping, reading, marks_as) depth 9

    activates : Keeps r (activate_binding_turn agent_id invocation_id binding now)
    unfolding activate_binding_turn
    activates = bind (lifts _) λ _. bind gets λ db.
        option (turn_of db invocation_id) (st.started agent_id invocation_id binding now)
          λ t. guards _ _

    pub arm_session_keeps :
        (session_ref generation_id : String) (input : ArmInvocation)
        → Keeps r (
            arm_session_invocation agent_id invocation_id binding session_ref generation_id input
              now)
    unfolding arm_session_invocation
    arm_session_keeps session_ref generation_id input =
        search (keeping, reading, st.armed, activates, st.observed) depth 14

    settles :
        (persistence : SessionPersistence)
        → Keeps r (settle_quiescent_turn agent_id invocation_id binding persistence now)
    unfolding settle_quiescent_turn
    settles persistence = search (keeping, reading, st.finished)

    pub complete_session_keeps :
        (id : String) (at : ℕ) (persistence : SessionPersistence) (input : CompleteInvocation)
        → Keeps r
            (complete_session_invocation id at agent_id invocation_id binding persistence input now)
    unfolding complete_session_invocation
    complete_session_keeps id at persistence input =
        search (keeping, reading, st.completed, settles) depth 9
