-- ===== src/Execution/Session/Listing.antt =====
-- crates/execution/src/session_binding.rs: the list of bindings that an operator reads.
use fleetd.Base.{
  ℕ, Bool, true, ◌&&◌, ◌||◌, Option, none, some, String, List, ◌==◌, ltb, leb, str_eq, map, take,
  if◌then◌else◌,
}
use fleetd.Table.{select, order_by}
use fleetd.Db.{BindingRow}
use fleetd.Db.Tx.{Tx, ◌>>=◌, pure, get}
use fleetd.Execution.Invocation.Recover.{text_le}
use fleetd.Execution.Session.Rows.{SessionBinding, binding_from_row}

abbrev max_listed_bindings : ℕ
max_listed_bindings = 500

-- ORDER BY updated_at_ms DESC, binding_id, binding_generation DESC.
abbrev recent_first : BindingRow → BindingRow → Bool
recent_first r s =
    ltb s.updated_at_ms r.updated_at_ms
    || (r.updated_at_ms == s.updated_at_ms
        && (if str_eq r.binding_id s.binding_id
            then leb s.binding_generation r.binding_generation
            else text_le r.binding_id s.binding_id))

abbrev of_agent : Option String → BindingRow → Bool
of_agent none s = true
of_agent (some agent_id) s = str_eq s.agent_id agent_id

unfoldable pub list_session_bindings : Option String → Tx (List SessionBinding)
list_session_bindings agent_id = do
  db ← get
  pure (
      map binding_from_row
        (take max_listed_bindings (order_by recent_first (select (of_agent agent_id) db.bindings))))
