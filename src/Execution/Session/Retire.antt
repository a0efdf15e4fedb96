-- ===== src/Execution/Session/Retire.antt =====
-- crates/execution/src/session_binding.rs: evidence that a session's outcome is unknown, and the
-- end of a generation.
use fleetd.Base.{ℕ, Bool, ◌&&◌, not, String, [], ◌∷◌, holds_text, concat, false}
use fleetd.Error.{conflict}
use fleetd.Model.{BindingState}
use fleetd.Model.Names.{binding_state_name}
use fleetd.Db.{BindingRow}
use fleetd.Db.Statements.{update_bindings}
use fleetd.Db.Tx.{Tx, ◌>>=◌, ◌>>◌, fail, fail_if, lift}
use fleetd.Execution.Session.{
  Binding, max_reason_bytes, validate_bounded, validate_binding, check_fence, owner_fence,
  is_active, is_retired, require_one,
}
use fleetd.Execution.Session.Turn.{mark_turn_uncertain, set_retired}
use fleetd.Execution.Session.Rows.{
  SessionBinding, exact_binding_row, validate_owner, binding_by_identity, validate_bound_turn,
}

-- The branches on the state of the binding.
unfoldable pub mark_uncertain_as :
    BindingState → BindingRow → String → String → Binding → String → ℕ → Tx (Unit {0})
mark_uncertain_as BindingState.uncertain row agent_id invocation_id binding reason now =
    fail_if (not (holds_text row.uncertain_reason reason))
      (conflict "session uncertainty was already recorded with different evidence")
mark_uncertain_as BindingState.active row agent_id invocation_id binding reason now =
    mark_turn_uncertain agent_id invocation_id binding reason now
mark_uncertain_as state row agent_id invocation_id binding reason now = fail (
    conflict (
      concat
        ("session turn cannot become uncertain while binding is " ∷ binding_state_name state ∷ [])))

unfoldable pub mark_session_invocation_uncertain :
    String → String → Binding → String → ℕ → Tx SessionBinding
mark_session_invocation_uncertain agent_id invocation_id binding reason now = do
  lift (validate_binding binding)
  lift (validate_bounded "uncertain reason" reason max_reason_bytes)
  validate_bound_turn agent_id invocation_id binding false
  row ← exact_binding_row agent_id binding
  mark_uncertain_as row.state row agent_id invocation_id binding reason now
  binding_by_identity agent_id binding

abbrev pub retirable : String → Binding → BindingRow → Bool
retirable agent_id binding s =
    owner_fence agent_id binding s && not (is_active s.state) && not (is_retired s.state)

-- The branches on the state of the binding.
unfoldable pub retire_as : BindingState → BindingRow → String → Binding → String → ℕ → Tx (Unit {0})
retire_as BindingState.active row agent_id binding reason now =
    fail (conflict "active session binding must become uncertain before retirement")
retire_as BindingState.retired row agent_id binding reason now =
    fail_if (not (holds_text row.retired_reason reason))
      (conflict "session binding was already retired for a different reason")
retire_as _ row agent_id binding reason now = do
  rows ← update_bindings (retirable agent_id binding) (set_retired reason now)
  require_one rows "session binding changed during retirement"

unfoldable pub retire_session_binding : String → Binding → String → ℕ → Tx SessionBinding
retire_session_binding agent_id binding reason now = do
  lift (validate_binding binding)
  lift (validate_bounded "retirement reason" reason max_reason_bytes)
  lift (check_fence binding)
  row ← exact_binding_row agent_id binding
  lift (validate_owner row binding)
  retire_as row.state row agent_id binding reason now
  binding_by_identity agent_id binding
