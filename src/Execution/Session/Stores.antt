-- ===== src/Execution/Session/Stores.antt =====
-- crates/execution/src/session_binding.rs: what the operations on sessions keep, from what their
-- statements keep.
pub mod Lanes
pub mod Turns
pub mod Runs
use fleetd.Base.{ℕ, ◌+◌, ◌≡◌, String, ◌&&◌, true}
use fleetd.Model.{AcquireSessionBinding, SessionPersistence, ArmInvocation, CompleteInvocation}
use fleetd.Db.{BindingRow}
use fleetd.Db.Statements.{update_bindings}
use fleetd.Db.Keeps.{Relation, Keeps}
use fleetd.Execution.Session.{Binding, owner_fence, is_ready}
use fleetd.Execution.Session.Rows.{SessionBinding}
use fleetd.Execution.Session.Turn.{set_retired, mark_turn_uncertain, uncertain_run}
use fleetd.Execution.Session.Acquire.{is_superseded, set_owner, insert_binding_row, new_binding}
use fleetd.Execution.Session.Open.{opening_binding, set_opened}
use fleetd.Execution.Session.Retire.{retirable}
use fleetd.Execution.Session.Dispatch.{start_turn, finish_turn}
use fleetd.Execution.Observation.{begin_invocation_observation}
use fleetd.Execution.Invocation.Arm.{arm_invocation_transaction}
use fleetd.Execution.Invocation.Complete.{complete_invocation_transaction}

-- The statements on sessions; those that change a turn and its binding together are one.
pub record Stores (r : Relation) : Type 0 where
  pub inserted :
      (binding_id : String) (generation : ℕ) (agent_id : String) (input : AcquireSessionBinding)
      (now : ℕ)
      → Keeps r (insert_binding_row (new_binding binding_id generation agent_id input now))
  pub rotated :
      (existing : SessionBinding) (agent_id reason : String) (now : ℕ)
      → Keeps r (update_bindings (is_superseded existing agent_id) (set_retired reason now))
  pub adopted :
      (existing : SessionBinding) (owner_epoch : ℕ) (owner : String) (now : ℕ)
      → owner_epoch ≡ existing.binding.owner_epoch + 1
      → Keeps r (
          update_bindings
            (λ s. owner_fence existing.agent_id existing.binding s && is_ready s.state)
            (set_owner owner_epoch owner now))
  pub opened :
      (agent_id : String) (binding : Binding) (session_ref : String) (now : ℕ)
      → Keeps r (update_bindings (opening_binding agent_id binding) (set_opened session_ref now))
  pub retired :
      (agent_id : String) (binding : Binding) (reason : String) (now : ℕ)
      → Keeps r (update_bindings (retirable agent_id binding) (set_retired reason now))
  pub recovered :
      (s : BindingRow) (invocation_id reason : String) (now : ℕ)
      → Keeps r (update_bindings (uncertain_run s invocation_id) (set_retired reason now))
  pub started :
      (agent_id invocation_id : String) (binding : Binding) (now : ℕ)
      → Keeps r (start_turn agent_id invocation_id binding now)
  pub finished :
      (agent_id invocation_id : String) (binding : Binding) (persistence : SessionPersistence)
      (now : ℕ)
      → Keeps r (finish_turn agent_id invocation_id binding persistence now)
  pub marked :
      (agent_id invocation_id : String) (binding : Binding) (reason : String) (now : ℕ)
      → Keeps r (mark_turn_uncertain agent_id invocation_id binding reason now)
  pub observed :
      (agent_id invocation_id generation_id : String) (binding : Binding) (now : ℕ)
      → Keeps r (begin_invocation_observation agent_id invocation_id generation_id binding now)
  pub armed :
      (agent_id invocation_id : String) (input : ArmInvocation) (now : ℕ)
      → Keeps r (arm_invocation_transaction agent_id invocation_id input now)
  pub completed :
      (id : String) (created_at : ℕ) (agent_id invocation_id : String) (input : CompleteInvocation)
      (now : ℕ)
      → Keeps r
          (complete_invocation_transaction id created_at agent_id invocation_id input now true)
