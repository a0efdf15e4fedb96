-- ===== src/Execution/Session/Open.antt =====
-- crates/execution/src/session_binding.rs: the native reference of a session, recorded once.
use fleetd.Base.{ℕ, ◌&&◌, not, some, String, [], ◌∷◌, holds_text, concat, Bool, true, false}
use fleetd.Error.{conflict}
use fleetd.Model.{BindingState}
use fleetd.Model.Names.{binding_state_name}
use fleetd.Db.{BindingRow}
use fleetd.Db.Statements.{update_bindings}
use fleetd.Db.Tx.{Tx, ◌>>=◌, ◌>>◌, fail, fail_if, lift}
use fleetd.Execution.Session.{
  Binding, validate_bounded, validate_binding, check_fence, owner_fence, require_one,
}
use fleetd.Execution.Session.Rows.{
  SessionBinding, exact_binding_row, validate_owner, binding_by_identity,
}

abbrev pub max_session_ref_bytes : ℕ
max_session_ref_bytes = 4096

abbrev pub is_opening : BindingState → Bool
is_opening BindingState.opening = true
is_opening _ = false

unfoldable pub set_opened : String → ℕ → BindingRow → BindingRow
set_opened session_ref now s = record s {
  state = BindingState.ready;
  session_ref = some session_ref;
  opened_at_ms = some now;
  updated_at_ms = now;
}

abbrev pub opening_binding : String → Binding → BindingRow → Bool
opening_binding agent_id binding s = owner_fence agent_id binding s && is_opening s.state

-- The `match` on the state of the binding.
unfoldable pub open_as : BindingState → BindingRow → String → Binding → String → ℕ → Tx (Unit {0})
open_as BindingState.opening row agent_id binding session_ref now = do
  rows ← update_bindings (opening_binding agent_id binding) (set_opened session_ref now)
  require_one rows "session binding changed while opening"
open_as BindingState.ready row agent_id binding session_ref now =
    fail_if (not (holds_text row.session_ref session_ref))
      (conflict "session opening was replayed with a different native reference")
open_as state row agent_id binding session_ref now = fail (
    conflict (
      concat
        ("session reference cannot be recorded while binding is " ∷ binding_state_name state ∷ [])))

unfoldable pub record_session_opened : String → Binding → String → ℕ → Tx SessionBinding
record_session_opened agent_id binding session_ref now = do
  lift (validate_binding binding)
  lift (validate_bounded "session reference" session_ref max_session_ref_bytes)
  lift (check_fence binding)
  row ← exact_binding_row agent_id binding
  lift (validate_owner row binding)
  open_as row.state row agent_id binding session_ref now
  binding_by_identity agent_id binding
