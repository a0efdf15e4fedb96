-- ===== src/Example/Session.antt =====
-- A session of the worker, from its acquisition to a turn that runs on it.
use fleetd.Kernel.Delivery.Claim.{
  claimable, set_leased, chosen, lease_claimable, held, with_messages,
}
use fleetd.Kernel.Delivery.Validate.{validate_claim}
use fleetd.Execution.Invocation.{
  invocation_by_id, invocation_with_delivery, validate_static_fence, validate_live_lease,
  validate_invocation_fence,
}
use fleetd.Execution.Invocation.Arm.{
  validate_arm, set_armed, arm_reserved, arm_as, arm_invocation_transaction,
}
use fleetd.Execution.Invocation.Recover.{
  terminalize_expired_reservations, lapses, park_all, recover_expired_invocations_transaction,
}
use fleetd.Execution.Observation.{begin_invocation_observation}
use fleetd.Base.Text.{is_blank, decimal}
use fleetd.Base.{◌≡◌, refl, false, true, none, some, String, ℕ, [], ◌∷◌, All, holds_text, arith}
use fleetd.Error.{Result}
use fleetd.Table.{find, select, any, count, update, order_by}
use fleetd.Model.{GenerationState, BindingState, AcquireSessionBinding, ArmInvocation}
use fleetd.Db.{Db, GenerationRow, BindingRow}
use fleetd.Db.Tx.{run, to_i64, checked_add}
use fleetd.Db.Demands.{Refuses}
use fleetd.Kernel.Message.{
  append_message_in_transaction, validate_idempotency_key, append_new, insert_message, channel_row,
  ensure_member, ensure_recipient, insert_message_row, insert_delivery_snapshot, insert_deliveries,
  snapshot, is_recipient, new_delivery, message_row,
}
use fleetd.Kernel.Delivery.{ensure_agent, leased_row}
use fleetd.Db.Statements.{update_bindings, update_deliveries, update_invocations}
use fleetd.Execution.Steps.{
  Reaches, start, next, append, reserve, acquire, open_session, arm_session, retire,
}
use fleetd.Execution.Invocation.Reserve.{
  reserve_invocations_filtered, new_invocation, insert_invocation, reserve_row, reserve_rows,
  reserve_leased,
}
use fleetd.Execution.Session.{
  Binding, is_active_turn, check_fence, check_i64, owner_fence, validate_bounded, validate_binding,
}
use fleetd.Execution.Session.Rows.{
  is_exact, current_binding_row, binding_from_row, binding_by_identity, exact_binding_row,
  latest_binding_row, validate_owner, validate_session_reference, validate_binding_activation,
}
use fleetd.Execution.Session.Acquire.{
  acquire_session_binding, SessionAcquisition, validate_acquisition, validate_directories,
  validate_absolute_path, is_absolute, acquire_existing, configuration_matches, take_over,
  adopt_binding, next_number, set_owner, new_binding, insert_binding_row, insert_binding,
  insert_after_latest_retired,
}
use fleetd.Execution.Session.Open.{record_session_opened, set_opened, open_as}
use fleetd.Execution.Session.Dispatch.{
  arm_session_invocation, new_turn, insert_turn, set_binding_active, start_turn,
  activate_binding_turn,
}
use fleetd.Execution.Session.Retire.{mark_session_invocation_uncertain, retire_session_binding}
use fleetd.Execution.Session.Owner.{superseded-Refuses}
use fleetd.Execution.Session.Lifecycle.{Evolves}
use fleetd.Execution.Session.Lifecycle.Statements.{Reaches-Evolves}
use fleetd.Execution.Session.Bound.{IsBound}
use fleetd.Execution.Session.Bound.Runs.{Reaches-IsBound, Reaches-alone, one_lane}
use fleetd.Execution.Session.Granted.{Granted}
use fleetd.Execution.Session.Granted.Lane.{acquire-Granted}
use fleetd.Example.Data.{quiet, request, outcome, outcome_eq, commits}
use fleetd.Example.Runs.{draws, claim}

abbrev pub process : GenerationRow
process = record {
  id = "g-1";
  agent_id = "worker";
  plugin_id = "acp";
  plugin_name = "ACP host";
  plugin_version = "1.0.0";
  interfaces = "[\"harness\"]";
  process_id = some 4711;
  driver_version = "1.0.0";
  acp_sdk_version = "0.4.0";
  acp_protocol_version = 1;
  runtime_name = "agent";
  runtime_version = "2.0.0";
  runtime_executable_digest = "sha256:agent";
  agent_capabilities = "{}";
  max_concurrent_turns = 1;
  max_frame_bytes = 65536;
  profile_digest = "sha256:profile";
  compatibility_digest = "sha256:compatible";
  raw_initialize_result = "{}";
  heartbeat_interval_ms = 5000;
  state = GenerationState.active;
  started_at_ms = 1;
  last_heartbeat_at_ms = 1;
  stopped_at_ms = none;
  stop_disposition = none;
  stop_reason = none;
  shutdown_outcome = none;
  shutdown_exit_code = none;
}

abbrev lane : AcquireSessionBinding
lane = record {
  lane_policy = "channel";
  lane_key = "tasks";
  owner_instance_id = "controller-1";
  profile_digest = "sha256:profile";
  compatibility_digest = "sha256:compatible";
  working_directory = "/work";
  additional_directories = "/shared" ∷ [];
}

abbrev session : Binding
session = record { binding_id = "b-1"; binding_generation = 1; owner_epoch = 1 }

abbrev fences : ArmInvocation
fences = record { lease_token = "lease-2"; fence_token = "fence-2" }

abbrev staffed : Db
staffed = record quiet { generations = process ∷ [] }

abbrev appended : Db
appended = (run (append_message_in_transaction "m-1" 10 "tasks" request) staffed).1

abbrev reserved : Db
reserved = (run (reserve_invocations_filtered draws "worker" claim none 20) appended).1

abbrev acquired : Db
acquired = (run (acquire_session_binding "b-1" "worker" lane 21) reserved).1

abbrev opened : Db
opened = (run (record_session_opened "worker" session "native-1" 22) acquired).1

abbrev armed : Db
armed = (run (arm_session_invocation "worker" "i-2" session "native-1" "g-1" fences 23) opened).1

fresh : All (λ d. holds_text d.lease_token (draws 0) ≡ false) appended.deliveries
unfolding run append_message_in_transaction validate_idempotency_key is_blank append_new
    insert_message channel_row ensure_member ensure_recipient insert_message_row
    insert_delivery_snapshot insert_deliveries snapshot is_recipient new_delivery message_row select
    any count find
fresh = (refl, tt)

path : Reaches staffed armed
path =
    next
      (next
        (next
          (next (next start (append "m-1" 10 "tasks" request))
            (reserve draws "worker" claim none 20 fresh))
          (acquire "b-1" "worker" lane 21))
        (open_session "worker" session "native-1" 22))
      (arm_session "worker" "i-2" session "native-1" "g-1" fences 23)

-- The turn runs.
turn_runs : any (λ t. is_active_turn t.state) armed.turns ≡ true
unfolding count select order_by update is_blank run to_i64 checked_add update_deliveries
    update_invocations update_bindings validate_idempotency_key channel_row ensure_recipient
    is_recipient new_delivery snapshot insert_deliveries insert_delivery_snapshot message_row
    insert_message_row insert_message append_new append_message_in_transaction leased_row
    ensure_agent claimable set_leased chosen lease_claimable held with_messages validate_claim
    invocation_by_id invocation_with_delivery validate_static_fence validate_live_lease
    validate_invocation_fence new_invocation insert_invocation reserve_row reserve_rows
    reserve_leased reserve_invocations_filtered validate_arm set_armed arm_reserved arm_as
    arm_invocation_transaction terminalize_expired_reservations lapses park_all
    recover_expired_invocations_transaction validate_binding check_fence owner_fence
    current_binding_row latest_binding_row exact_binding_row binding_by_identity validate_owner
    validate_session_reference validate_binding_activation validate_acquisition new_binding
    insert_binding_row insert_binding insert_after_latest_retired acquire_session_binding set_opened
    open_as record_session_opened new_turn insert_turn set_binding_active start_turn
    activate_binding_turn arm_session_invocation begin_invocation_observation
turn_runs = refl

Reaches-IsBound_example : IsBound armed.bindings armed.turns
Reaches-IsBound_example = Reaches-IsBound staffed armed refl refl path

Reaches-alone_example :
    All
      (λ t.
        All
          (λ u.
            is_active_turn t.state ≡ true
            → is_active_turn u.state ≡ true
            → one_lane t u ≡ true
            → t ≡ u)
          armed.turns)
      armed.turns
Reaches-alone_example = Reaches-alone staffed armed refl refl path

Reaches-Evolves_example : Evolves staffed.bindings armed.bindings
Reaches-Evolves_example = Reaches-Evolves staffed armed path

abbrev adopted : BindingRow
adopted = record {
  binding_id = "b-1";
  binding_generation = 1;
  agent_id = "worker";
  lane_policy = "channel";
  lane_key = "tasks";
  owner_epoch = 2;
  owner_instance_id = "controller-2";
  profile_digest = "sha256:profile";
  compatibility_digest = "sha256:compatible";
  working_directory = "/work";
  additional_directories = "/shared" ∷ [];
  session_ref = some "native-1";
  state = BindingState.ready;
  active_invocation_id = none;
  last_quiescent_invocation_id = none;
  session_persistence = none;
  uncertain_reason = none;
  retired_reason = none;
  created_at_ms = 5;
  updated_at_ms = 9;
  opened_at_ms = some 6;
  retired_at_ms = none;
}

abbrev taken : Db
taken = record staffed { bindings = adopted ∷ [] }

abbrev retried : Db
retried = (run (retire_session_binding "worker" session "done" 30) taken).1

stored : find (is_exact "worker" "b-1" 1) taken.bindings ≡ some adopted
unfolding find
stored = refl

superseded-Refuses_example :
    ((session_ref : String) (now : ℕ)
      → Refuses (record_session_opened "worker" session session_ref now) retried)
    × ((invocation_id session_ref generation_id : String) (input : ArmInvocation) (now : ℕ)
        → Refuses
            (arm_session_invocation "worker" invocation_id session session_ref generation_id input
              now)
            retried)
    × ((invocation_id reason : String) (now : ℕ)
        → Refuses
            (mark_session_invocation_uncertain "worker" invocation_id session reason now)
            retried)
    × ((reason : String) (now : ℕ)
        → Refuses (retire_session_binding "worker" session reason now) retried)
superseded-Refuses_example =
    superseded-Refuses "worker" session taken retried adopted stored (omega arith)
      (next start (retire "worker" session "done" 30))

abbrev acquiring : Result (SessionAcquisition × Db)
acquiring =
    acquire_session_binding "b-2" "worker" (record lane { owner_instance_id = "controller-3" }) 40
      taken

acquires : commits acquiring ≡ true
unfolding acquire_session_binding validate_acquisition validate_directories validate_absolute_path
    is_absolute validate_bounded ensure_agent current_binding_row acquire_existing binding_from_row
    configuration_matches take_over adopt_binding check_fence check_i64 next_number owner_fence
    update_bindings set_owner binding_by_identity exact_binding_row find count update is_blank any
    decimal
acquires = refl

acquire-Granted_example :
    Granted "worker"
      (record lane { owner_instance_id = "controller-3" })
      (outcome acquiring acquires).0
      (outcome acquiring acquires).1
acquire-Granted_example =
    acquire-Granted "worker" (record lane { owner_instance_id = "controller-3" }) "b-2" 40 taken
      (outcome acquiring acquires).1 (outcome acquiring acquires).0 (tt, tt)
      (outcome_eq acquiring acquires)
