-- ===== src/Execution/Session/Dispatch.antt =====
-- crates/execution/src/session_binding.rs: an invocation armed and completed together with the
-- session that runs it.
use fleetd.Base.{
  ℕ, Bool, true, ◌&&◌, not, none, some, String, [], ◌∷◌, ◌++◌, ◌==◌, str_eq, Option, false,
  if◌then◌else◌,
}
use fleetd.Error.{conflict, database}
use fleetd.Table.{any}
use fleetd.Model.{BindingState, TurnState, SessionPersistence, ArmInvocation, CompleteInvocation}
use fleetd.Db.{BindingRow, TurnRow}
use fleetd.Db.Statements.{update_bindings, update_turns}
use fleetd.Db.Tx.{Tx, ◌>>=◌, ◌>>◌, pure, fail_if, get, put, lift}
use fleetd.Kernel.Delivery.Block.{is_unset}
use fleetd.Execution.Session.{
  Binding, validate_bounded, validate_binding, check_fence, owner_fence, is_ready, is_active_turn,
  require_one,
}
use fleetd.Execution.Session.Turn.{turn_of, active_turn, running_binding}
use fleetd.Execution.Session.Rows.{
  SessionBinding, exact_binding_row, validate_owner, validate_session_reference,
  validate_binding_activation, validate_bound_turn, binding_by_identity, bound_turn_row,
  is_quiescent_turn,
}
use fleetd.Execution.Session.Open.{max_session_ref_bytes}
use fleetd.Execution.Observation.{begin_invocation_observation}
use fleetd.Execution.Invocation.{Invocation}
use fleetd.Execution.Invocation.Arm.{arm_invocation_transaction}
use fleetd.Execution.Invocation.Complete.{InvocationCompletion, complete_invocation_transaction}

pub record BoundInvocation : Type 0 where
  pub invocation : Invocation
  pub session : SessionBinding

unfoldable pub new_turn : String → Binding → ℕ → TurnRow
new_turn invocation_id binding now = record {
  invocation_id = invocation_id;
  binding_id = binding.binding_id;
  binding_generation = binding.binding_generation;
  owner_epoch = binding.owner_epoch;
  state = TurnState.active;
  started_at_ms = now;
  terminal_at_ms = none;
  session_persistence = none;
  uncertain_reason = none;
}

-- PRIMARY KEY (invocation_id); the caller has found no turn of the invocation.
unfoldable pub insert_turn : TurnRow → Tx (Unit {0})
insert_turn new = do
  db ← get
  fail_if (any (λ t. str_eq t.invocation_id new.invocation_id) db.turns)
      (database "UNIQUE constraint failed: session_binding_turns")
  put (record db { turns = db.turns ++ new ∷ [] })

abbrev pub idle_binding : String → Binding → BindingRow → Bool
idle_binding agent_id binding s =
    owner_fence agent_id binding s && is_ready s.state && is_unset s.active_invocation_id

unfoldable pub set_binding_active : String → ℕ → BindingRow → BindingRow
set_binding_active invocation_id now s = record s {
  state = BindingState.active;
  active_invocation_id = some invocation_id;
  updated_at_ms = now;
}

abbrev pub same_ownership : Binding → TurnRow → Bool
same_ownership binding t =
    str_eq t.binding_id binding.binding_id
    && t.binding_generation == binding.binding_generation
    && t.owner_epoch == binding.owner_epoch
    && is_active_turn t.state

unfoldable pub start_turn : String → String → Binding → ℕ → Tx (Unit {0})
start_turn agent_id invocation_id binding now = do
  insert_turn (new_turn invocation_id binding now)
  rows ← update_bindings (idle_binding agent_id binding) (set_binding_active invocation_id now)
  require_one rows "session binding changed while turn was armed"

unfoldable pub activate_binding_turn : String → String → Binding → ℕ → Tx (Unit {0})
activate_binding_turn agent_id invocation_id binding now = do
  lift (check_fence binding)
  db ← get
  elim (turn_of db invocation_id) [
    | some t ↦
        fail_if (not (same_ownership binding t))
          (conflict "invocation is already bound to different session ownership")
    | none ↦ start_turn agent_id invocation_id binding now
  ]

unfoldable pub arm_session_invocation :
    String → String → Binding → String → String → ArmInvocation → ℕ → Tx BoundInvocation
arm_session_invocation agent_id invocation_id binding session_ref generation_id input now = do
  lift (validate_binding binding)
  lift (validate_bounded "session reference" session_ref max_session_ref_bytes)
  row ← exact_binding_row agent_id binding
  lift (validate_owner row binding)
  lift (validate_session_reference row session_ref)
  lift (validate_binding_activation row invocation_id)
  invocation ← arm_invocation_transaction agent_id invocation_id input now
  activate_binding_turn agent_id invocation_id binding now
  begin_invocation_observation agent_id invocation_id generation_id binding now
  session ← binding_by_identity agent_id binding
  pure (record { invocation = invocation; session = session })

unfoldable pub set_turn_quiescent : SessionPersistence → ℕ → TurnRow → TurnRow
set_turn_quiescent persistence now t = record t {
  state = TurnState.quiescent;
  terminal_at_ms = some now;
  session_persistence = some persistence;
}

unfoldable pub set_binding_ready : String → SessionPersistence → ℕ → BindingRow → BindingRow
set_binding_ready invocation_id persistence now s = record s {
  state = BindingState.ready;
  active_invocation_id = none;
  last_quiescent_invocation_id = some invocation_id;
  session_persistence = some persistence;
  updated_at_ms = now;
}

abbrev pub same_persistence : SessionPersistence → SessionPersistence → Bool
same_persistence SessionPersistence.confirmed SessionPersistence.confirmed = true
same_persistence SessionPersistence.runtime_claimed SessionPersistence.runtime_claimed = true
same_persistence SessionPersistence.unknown SessionPersistence.unknown = true
same_persistence _ _ = false

abbrev pub holds_persistence : Option SessionPersistence → SessionPersistence → Bool
holds_persistence none p = false
holds_persistence (some q) p = same_persistence q p

-- The statements of `settle_quiescent_turn`.
unfoldable pub finish_turn : String → String → Binding → SessionPersistence → ℕ → Tx (Unit {0})
finish_turn agent_id invocation_id binding persistence now = do
  turns ← update_turns (active_turn invocation_id) (set_turn_quiescent persistence now)
  require_one turns "session turn changed during completion"
  lift (check_fence binding)
  bindings ←
      update_bindings (running_binding agent_id binding invocation_id)
        (set_binding_ready invocation_id persistence now)
  require_one bindings "session binding changed during completion"

unfoldable pub settle_quiescent_turn :
    String → String → Binding → SessionPersistence → ℕ → Tx (Unit {0})
settle_quiescent_turn agent_id invocation_id binding persistence now = do
  t ← bound_turn_row invocation_id
  if is_quiescent_turn t.state
      then fail_if (not (holds_persistence t.session_persistence persistence))
          (conflict "session completion replay changed persistence evidence")
      else do
        fail_if (not (is_active_turn t.state))
            (conflict "non-active session turn cannot become quiescent")
        finish_turn agent_id invocation_id binding persistence now

-- `id` and `created_at` are the result message's.
unfoldable pub complete_session_invocation :
    String
    → ℕ
    → String
    → String
    → Binding
    → SessionPersistence
    → CompleteInvocation
    → ℕ
    → Tx (InvocationCompletion × Bool)
complete_session_invocation id created_at agent_id invocation_id binding persistence input now = do
  lift (validate_binding binding)
  validate_bound_turn agent_id invocation_id binding true
  completion ← complete_invocation_transaction id created_at agent_id invocation_id input now true
  settle_quiescent_turn agent_id invocation_id binding persistence now
  pure completion
