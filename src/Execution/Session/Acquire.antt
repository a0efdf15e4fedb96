-- ===== src/Execution/Session/Acquire.antt =====
-- crates/execution/src/session_binding.rs: taking a lane: a new generation, a rotation, or the
-- adoption of a ready one under the next owner epoch. `id` is what `Uuid::new_v4` returns.
use Prim.Native.Char.{code}
use fleetd.Base.{
  ℕ, ◌+◌, Bool, true, false, ◌&&◌, ◌||◌, not, none, some, String, List, [], ◌∷◌, ◌++◌, ltb, ◌==◌,
  str_eq, if◌then◌else◌, concat, decimal, length,
}
use fleetd.Error.{
  FleetError, Result, ok, invalid, conflict, database, refuse_if, ◌>>◌ as then_check,
}
use fleetd.Table.{any}
use fleetd.Model.{BindingState, AcquireSessionBinding, SessionAcquisitionMode}
use fleetd.Db.{BindingRow}
use fleetd.Db.Statements.{update_bindings}
use fleetd.Db.Tx.{Tx, ◌>>=◌, ◌>>◌, pure, fail, fail_if, get, put, lift, expect}
use fleetd.Kernel.Delivery.{ensure_agent}
use fleetd.Execution.Session.{
  max_id_bytes, validate_bounded, check_i64, check_fence, owner_fence, is_ready, is_retired,
  require_one,
}
use fleetd.Execution.Session.Turn.{set_retired}
use fleetd.Execution.Session.Rows.{
  SessionBinding, binding_from_row, current_binding_row, latest_binding_row, binding_by_identity,
  names_binding, in_lane,
}

pub record SessionAcquisition : Type 0 where
  pub session : SessionBinding
  pub mode : SessionAcquisitionMode

abbrev pub max_lane_key_bytes : ℕ
max_lane_key_bytes = 4096

abbrev pub max_path_bytes : ℕ
max_path_bytes = 4096

abbrev pub max_additional_directories : ℕ
max_additional_directories = 64

-- `Path::is_absolute`, on Unix.
unfoldable pub is_absolute : String → Bool
is_absolute String.[] = false
is_absolute (String.◌∷◌ c s) = code c == 0x2f

unfoldable pub validate_absolute_path : String → String → Result (Unit {0})
unfolding is_absolute validate_bounded
validate_absolute_path label value = then_check (validate_bounded label value max_path_bytes) (
    refuse_if (not (is_absolute value))
      (invalid (concat (label ∷ " must be an absolute path" ∷ []))))

unfoldable pub validate_directories : List String → Result (Unit {0})
unfolding validate_absolute_path
validate_directories [] = ok tt
validate_directories (d ∷ ds) =
    then_check (validate_absolute_path "additional directory" d) (validate_directories ds)

abbrev too_many_directories : FleetError
too_many_directories = invalid (
    concat (
      "additional directories must not exceed "
      ∷ decimal max_additional_directories
      ∷ " entries"
      ∷ []))

unfoldable pub validate_acquisition : String → AcquireSessionBinding → Tx (Unit {0})
unfolding validate_directories
validate_acquisition agent_id input = do
  lift (validate_bounded "agent ID" agent_id max_id_bytes)
  lift (validate_bounded "lane policy" input.lane_policy max_id_bytes)
  lift (validate_bounded "lane key" input.lane_key max_lane_key_bytes)
  lift (validate_bounded "owner instance ID" input.owner_instance_id max_id_bytes)
  lift (validate_bounded "profile digest" input.profile_digest max_id_bytes)
  lift (validate_bounded "compatibility digest" input.compatibility_digest max_id_bytes)
  lift (validate_absolute_path "working directory" input.working_directory)
  fail_if (ltb max_additional_directories (length input.additional_directories))
      too_many_directories
  lift (validate_directories input.additional_directories)

abbrev pub same_texts : List String → List String → Bool
same_texts [] [] = true
same_texts (a ∷ as') (b ∷ bs) = str_eq a b && same_texts as' bs
same_texts _ _ = false

unfoldable pub configuration_matches : SessionBinding → AcquireSessionBinding → Bool
configuration_matches binding input =
    str_eq binding.profile_digest input.profile_digest
    && str_eq binding.compatibility_digest input.compatibility_digest
    && str_eq binding.working_directory input.working_directory
    && same_texts binding.additional_directories input.additional_directories

abbrev pub u64_max : ℕ
u64_max = 18446744073709551615

-- `value.checked_add(1)` on `u64`.
unfoldable pub next_number : String → ℕ → Tx ℕ
next_number label value =
    if ltb value u64_max
    then pure (value + 1)
    else fail (conflict (concat (label ∷ " overflowed" ∷ [])))

unfoldable pub new_binding : String → ℕ → String → AcquireSessionBinding → ℕ → BindingRow
new_binding binding_id generation agent_id input now = record {
  binding_id = binding_id;
  binding_generation = generation;
  agent_id = agent_id;
  lane_policy = input.lane_policy;
  lane_key = input.lane_key;
  owner_epoch = 1;
  owner_instance_id = input.owner_instance_id;
  profile_digest = input.profile_digest;
  compatibility_digest = input.compatibility_digest;
  working_directory = input.working_directory;
  additional_directories = input.additional_directories;
  session_ref = none;
  state = BindingState.opening;
  active_invocation_id = none;
  last_quiescent_invocation_id = none;
  session_persistence = none;
  uncertain_reason = none;
  retired_reason = none;
  created_at_ms = now;
  updated_at_ms = now;
  opened_at_ms = none;
  retired_at_ms = none;
}

-- PRIMARY KEY (binding_id, binding_generation), UNIQUE (agent_id, lane_policy, lane_key,
-- binding_generation), and the index that admits one binding of a lane that is not retired.
unfoldable pub clashes_binding : BindingRow → BindingRow → Bool
clashes_binding new s =
    names_binding new.binding_id new.binding_generation s
    || (in_lane new.agent_id new.lane_policy new.lane_key s
        && (s.binding_generation == new.binding_generation || not (is_retired s.state)))

unfoldable pub insert_binding_row : BindingRow → Tx (Unit {0})
insert_binding_row new = do
  db ← get
  fail_if (any (clashes_binding new) db.bindings)
      (database "UNIQUE constraint failed: session_bindings")
  put (record db { bindings = db.bindings ++ new ∷ [] })

unfoldable pub insert_binding :
    String → ℕ → String → AcquireSessionBinding → ℕ → Tx SessionAcquisition
insert_binding binding_id generation agent_id input now = do
  lift (check_i64 "binding generation" generation)
  insert_binding_row (new_binding binding_id generation agent_id input now)
  session ←
      binding_by_identity agent_id
        (record { binding_id = binding_id; binding_generation = generation; owner_epoch = 1 })
  pure (record { session = session; mode = SessionAcquisitionMode.create })

unfoldable pub insert_after_latest_retired :
    String → String → AcquireSessionBinding → ℕ → Tx SessionAcquisition
insert_after_latest_retired id agent_id input now = do
  latest ← latest_binding_row agent_id input.lane_policy input.lane_key
  elim latest [
    | none ↦ insert_binding id 1 agent_id input now
    | some s ↦ do
      fail_if (not (is_retired s.state))
          (conflict "non-retired session binding was omitted from the current lane")
      generation ← next_number "binding generation" s.binding_generation
      insert_binding s.binding_id generation agent_id input now
  ]

unfoldable pub is_superseded : SessionBinding → String → BindingRow → Bool
is_superseded existing agent_id s =
    owner_fence agent_id existing.binding s
    && elim s.state [ BindingState.opening ↦ true | BindingState.ready ↦ true | _ ↦ false ]

unfoldable pub rotate_binding :
    SessionBinding → String → AcquireSessionBinding → ℕ → String → Tx SessionAcquisition
rotate_binding existing agent_id input now reason = do
  lift (check_fence existing.binding)
  generation ← next_number "binding generation" existing.binding.binding_generation
  rows ← update_bindings (is_superseded existing agent_id) (set_retired reason now)
  require_one rows "session binding changed during rotation"
  insert_binding existing.binding.binding_id generation agent_id input now

unfoldable pub set_owner : ℕ → String → ℕ → BindingRow → BindingRow
set_owner owner_epoch owner_instance_id now s = record s {
  owner_epoch = owner_epoch;
  owner_instance_id = owner_instance_id;
  updated_at_ms = now;
}

abbrev pub resumed : SessionBinding → FleetError → Tx SessionAcquisition
resumed session e = expect session.session_ref e >>= λ session_ref.
    pure (record { session = session; mode = SessionAcquisitionMode.resume session_ref })

unfoldable pub adopt_binding : SessionBinding → String → ℕ → Tx SessionAcquisition
adopt_binding existing owner_instance_id now = do
  lift (check_fence existing.binding)
  owner_epoch ← next_number "owner epoch" existing.binding.owner_epoch
  lift (check_i64 "owner epoch" owner_epoch)
  rows ←
      update_bindings (λ s. owner_fence existing.agent_id existing.binding s && is_ready s.state)
        (set_owner owner_epoch owner_instance_id now)
  require_one rows "session binding changed during adoption"
  session ← binding_by_identity existing.agent_id (record {
    binding_id = existing.binding.binding_id;
    binding_generation = existing.binding.binding_generation;
    owner_epoch = owner_epoch;
  })
  resumed session (invalid "stored adopted ready binding omitted session reference")

-- `acquisition_for_owned`, by the state of the binding that the same owner instance holds.
unfoldable pub acquisition_for_owned : BindingState → SessionBinding → Tx SessionAcquisition
acquisition_for_owned BindingState.opening existing =
    pure (record { session = existing; mode = SessionAcquisitionMode.create })
acquisition_for_owned BindingState.ready existing =
    resumed existing (invalid "stored ready binding omitted session reference")
acquisition_for_owned BindingState.active existing =
    fail (conflict "session binding already has an active invocation")
acquisition_for_owned BindingState.uncertain existing =
    fail (conflict "session binding is uncertain")
acquisition_for_owned BindingState.retired existing = fail (conflict "session binding is retired")

-- The `match` on the state of a binding that another owner instance holds.
unfoldable pub take_over :
    BindingState → SessionBinding → String → AcquireSessionBinding → ℕ → Tx SessionAcquisition
take_over BindingState.opening existing agent_id input now =
    rotate_binding existing agent_id input now "opening_superseded_by_new_owner"
take_over BindingState.ready existing agent_id input now =
    if configuration_matches existing input
    then adopt_binding existing input.owner_instance_id now
    else rotate_binding existing agent_id input now "incompatible_profile_rotation"
take_over BindingState.active existing agent_id input now =
    fail (conflict "active session binding cannot be adopted")
take_over BindingState.uncertain existing agent_id input now =
    fail (conflict "uncertain session binding requires explicit reconciliation or retirement")
take_over BindingState.retired existing agent_id input now =
    fail (conflict "retired binding was selected as the current lane")

unfoldable pub acquire_existing :
    BindingRow → String → AcquireSessionBinding → ℕ → Tx SessionAcquisition
acquire_existing row agent_id input now = do
  let existing = binding_from_row row
  if str_eq row.owner_instance_id input.owner_instance_id
      then (fail_if (not (configuration_matches existing input))
            (conflict "session acquisition replay changed immutable configuration")
          >> acquisition_for_owned row.state existing)
      else take_over row.state existing agent_id input now

-- The agent is looked up before the transaction; nothing deletes an agent.
unfoldable pub acquire_session_binding :
    String → String → AcquireSessionBinding → ℕ → Tx SessionAcquisition
acquire_session_binding id agent_id input now = do
  validate_acquisition agent_id input
  ensure_agent agent_id
  current ← current_binding_row agent_id input.lane_policy input.lane_key
  elim current [
    | none ↦ insert_after_latest_retired id agent_id input now
    | some row ↦ acquire_existing row agent_id input now
  ]
