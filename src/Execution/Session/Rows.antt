-- ===== src/Execution/Session/Rows.antt =====
-- crates/execution/src/session_binding.rs: reading bindings and turns, and the fences they are
-- read under.
use fleetd.Base.{
  ℕ, Bool, true, false, ◌&&◌, ◌||◌, not, Option, String, List, [], ◌∷◌, ◌==◌, leb, str_eq,
  holds_text, if◌then◌else◌, concat, decimal,
}
use fleetd.Error.{
  Result, ok, not_found, conflict, lease_conflict, err, refuse_if, ◌>>◌ as then_check,
}
use fleetd.Table.{find, select, order_by}
use fleetd.Model.{BindingState, TurnState, SessionPersistence}
use fleetd.Db.{BindingRow, TurnRow}
use fleetd.Db.Tx.{Tx, ◌>>=◌, ◌>>◌, pure, fail_if, get, lift, expect}
use fleetd.Kernel.Delivery.Block.{is_unset}
use fleetd.Execution.Session.{Binding, check_i64, is_ready, is_active, is_uncertain, is_retired}
use fleetd.Execution.Session.Turn.{turn_of}

-- What a caller reads of a binding row; the directories' JSON is the list that it encodes.
pub record SessionBinding : Type 0 where
  pub binding : Binding
  pub agent_id : String
  pub lane_policy : String
  pub lane_key : String
  pub owner_instance_id : String
  pub profile_digest : String
  pub compatibility_digest : String
  pub working_directory : String
  pub additional_directories : List String
  pub session_ref : Option String
  pub state : BindingState
  pub active_invocation_id : Option String
  pub last_quiescent_invocation_id : Option String
  pub session_persistence : Option SessionPersistence
  pub uncertain_reason : Option String
  pub retired_reason : Option String
  pub created_at_ms : ℕ
  pub updated_at_ms : ℕ
  pub opened_at_ms : Option ℕ
  pub retired_at_ms : Option ℕ

abbrev pub row_binding : BindingRow → Binding
row_binding s = record {
  binding_id = s.binding_id;
  binding_generation = s.binding_generation;
  owner_epoch = s.owner_epoch;
}

unfoldable pub binding_from_row : BindingRow → SessionBinding
binding_from_row s = record {
  binding = row_binding s;
  agent_id = s.agent_id;
  lane_policy = s.lane_policy;
  lane_key = s.lane_key;
  owner_instance_id = s.owner_instance_id;
  profile_digest = s.profile_digest;
  compatibility_digest = s.compatibility_digest;
  working_directory = s.working_directory;
  additional_directories = s.additional_directories;
  session_ref = s.session_ref;
  state = s.state;
  active_invocation_id = s.active_invocation_id;
  last_quiescent_invocation_id = s.last_quiescent_invocation_id;
  session_persistence = s.session_persistence;
  uncertain_reason = s.uncertain_reason;
  retired_reason = s.retired_reason;
  created_at_ms = s.created_at_ms;
  updated_at_ms = s.updated_at_ms;
  opened_at_ms = s.opened_at_ms;
  retired_at_ms = s.retired_at_ms;
}

-- PRIMARY KEY (binding_id, binding_generation).
abbrev pub names_binding : String → ℕ → BindingRow → Bool
names_binding binding_id generation s =
    str_eq s.binding_id binding_id && s.binding_generation == generation

-- The lookup of a generation that an agent owns.
abbrev pub is_exact : String → String → ℕ → BindingRow → Bool
is_exact agent_id binding_id generation s =
    names_binding binding_id generation s && str_eq s.agent_id agent_id

abbrev pub in_lane : String → String → String → BindingRow → Bool
in_lane agent_id lane_policy lane_key s =
    str_eq s.agent_id agent_id && str_eq s.lane_policy lane_policy && str_eq s.lane_key lane_key

unfoldable pub current_binding_row : String → String → String → Tx (Option BindingRow)
current_binding_row agent_id lane_policy lane_key = do
  db ← get
  pure (find (λ s. in_lane agent_id lane_policy lane_key s && not (is_retired s.state)) db.bindings)

abbrev pub later_generation : BindingRow → BindingRow → Bool
later_generation r s = leb s.binding_generation r.binding_generation

unfoldable pub latest_binding_row : String → String → String → Tx (Option BindingRow)
latest_binding_row agent_id lane_policy lane_key = do
  db ← get
  pure (
      find (λ _. true)
        (order_by later_generation (select (in_lane agent_id lane_policy lane_key) db.bindings)))

unfoldable pub exact_binding_row : String → Binding → Tx BindingRow
exact_binding_row agent_id binding = do
  lift (check_i64 "binding generation" binding.binding_generation)
  db ← get
  expect (find (is_exact agent_id binding.binding_id binding.binding_generation) db.bindings) (
      not_found "session binding"
        (concat (binding.binding_id ∷ ":" ∷ decimal binding.binding_generation ∷ [])))

unfoldable pub binding_by_identity : String → Binding → Tx SessionBinding
binding_by_identity agent_id binding = do
  s ← exact_binding_row agent_id binding
  pure (binding_from_row s)

unfoldable pub bound_turn_row : String → Tx TurnRow
bound_turn_row invocation_id = do
  db ← get
  expect (turn_of db invocation_id) (not_found "session binding turn" invocation_id)

abbrev stale_owner : Result (Unit {0})
stale_owner = err (lease_conflict "session binding owner fence is stale")

unfoldable pub validate_owner : BindingRow → Binding → Result (Unit {0})
validate_owner s binding = then_check (check_i64 "binding generation" binding.binding_generation) (
    if s.binding_generation == binding.binding_generation
    then then_check (check_i64 "owner epoch" binding.owner_epoch)
        (if s.owner_epoch == binding.owner_epoch then ok tt else stale_owner)
    else stale_owner)

abbrev foreign_turn : Result (Unit {0})
foreign_turn = err (lease_conflict "session turn fence does not match durable ownership")

unfoldable pub validate_turn_fence : TurnRow → Binding → Result (Unit {0})
unfolding check_i64
validate_turn_fence t binding =
    if str_eq t.binding_id binding.binding_id
    then then_check (check_i64 "binding generation" binding.binding_generation) (
        if t.binding_generation == binding.binding_generation
        then then_check (check_i64 "owner epoch" binding.owner_epoch)
            (if t.owner_epoch == binding.owner_epoch then ok tt else foreign_turn)
        else foreign_turn)
    else foreign_turn

unfoldable pub validate_session_reference : BindingRow → String → Result (Unit {0})
validate_session_reference s session_ref =
    refuse_if (not (holds_text s.session_ref session_ref))
      (lease_conflict "native session reference does not match durable binding")

unfoldable pub validate_binding_activation : BindingRow → String → Result (Unit {0})
validate_binding_activation s invocation_id =
    refuse_if
      (not (
        (is_ready s.state && is_unset s.active_invocation_id)
        || (is_active s.state && holds_text s.active_invocation_id invocation_id)))
      (conflict "session binding is not ready for this invocation")

abbrev pub is_quiescent_turn : TurnState → Bool
is_quiescent_turn TurnState.quiescent = true
is_quiescent_turn _ = false

-- `validate_bound_turn`, once the turn has been read.
unfoldable pub validate_current_turn : String → String → Binding → Tx (Unit {0})
validate_current_turn agent_id invocation_id binding = do
  s ← exact_binding_row agent_id binding
  lift (validate_owner s binding)
  fail_if
      (not (
        (is_active s.state || is_uncertain s.state)
        && holds_text s.active_invocation_id invocation_id))
      (conflict "invocation does not own the current session binding state")

unfoldable pub validate_bound_turn : String → String → Binding → Bool → Tx (Unit {0})
validate_bound_turn agent_id invocation_id binding allow_quiescent_replay = do
  t ← bound_turn_row invocation_id
  lift (validate_turn_fence t binding)
  if allow_quiescent_replay && is_quiescent_turn t.state
      then pure tt
      else validate_current_turn agent_id invocation_id binding

unfoldable pub get_session_binding : String → ℕ → Tx SessionBinding
get_session_binding binding_id binding_generation = do
  lift (check_i64 "binding generation" binding_generation)
  db ← get
  s ←
      expect (find (names_binding binding_id binding_generation) db.bindings)
        (not_found "session binding" (concat (binding_id ∷ "/" ∷ decimal binding_generation ∷ [])))
  pure (binding_from_row s)
