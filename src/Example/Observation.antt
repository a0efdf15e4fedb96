-- ===== src/Example/Observation.antt =====
-- A turn that is observed, by a process that then stops.
use fleetd.Base.{
  ◌↔◌, ◌≡◌, refl, false, true, none, some, [], ◌∷◌, arith, concat, str_eq, if◌then◌else◌,
}
use fleetd.Base.Text.{is_blank, decimal}
use fleetd.Error.{Result, ok, err, conflict}
use fleetd.Table.{find, count, update}
use fleetd.Model.{BindingState, InvocationState, Disposition, ShutdownOutcome, ExitCode}
use fleetd.Db.{Db, GenerationRow, ObservationRow}
use fleetd.Db.Statements.{update_generations}
use fleetd.Execution.Observation.{no_events, is_active_generation}
use fleetd.Execution.Observation.Events.{Hasher, record_invocation_event}
use fleetd.Execution.Observation.Generations.{
  StopPluginGeneration, GenerationHealth, stop_plugin_generation, stop_matches, generation_by_id,
  plugin_generation, set_stopped, validate_reason,
}
use fleetd.Execution.Observation.Log.{TurnEvent, IsObserving, IsAcceptable}
use fleetd.Execution.Observation.Summary.{Sums, record_events, record_events_lem}
use fleetd.Execution.Observation.Repeat.{digest_at, event-again}
use fleetd.Execution.Observation.Stop.{stop-again}
use fleetd.Execution.Observation.Seats.{
  recovery_required, working, idle, offline, seat_state, is_working, is_uncertain_session,
  is_open_invocation, seat_state-trusted,
}
use fleetd.Example.Data.{quiet, outcome, outcome_eq, commits}
use fleetd.Example.Session.{process}

-- A stand-in for SHA-256 that tells texts apart.
abbrev hasher : Hasher
hasher = record { sha256 = concat; be_bytes = decimal }

abbrev begun : ObservationRow
begun = record {
  invocation_id = "i-2";
  generation_id = "g-1";
  binding_id = "b-1";
  binding_generation = 1;
  owner_epoch = 1;
  started_at_ms = 23;
  updated_at_ms = 23;
  first_event_at_ms = none;
  last_event_at_ms = none;
  event_count = 0;
  observed_payload_bytes = 0;
  last_event_seq = 0;
  last_event_digest = none;
  event_chain_digest = none;
  counts = no_events;
  terminal_at_ms = none;
  stop_reason = none;
  runtime_stop_reason = none;
  execution_certainty = none;
  session_quiescent = none;
  session_persistence = none;
  usage = none;
}

abbrev observed : Db
observed = record quiet { generations = process ∷ []; observations = begun ∷ [] }

abbrev chunk : TurnEvent
chunk = record { observed_at_ms = 24; classification = "assistant"; raw = "{}" }

abbrev call : TurnEvent
call = record { observed_at_ms = 25; classification = "tool"; raw = "[]" }

observing : IsObserving "g-1" "i-2" observed begun
unfolding find
observing = record {
  found = refl;
  alone = (tt, tt);
  generation = process;
  by = refl;
  is_active = refl;
  is_open = refl;
}

chunk-IsAcceptable : IsAcceptable "g-1" "i-2" chunk
unfolding is_blank
chunk-IsAcceptable = record { timed = λ h. ground arith; classified = refl; bounded = omega arith }

call-IsAcceptable : IsAcceptable "g-1" "i-2" call
unfolding is_blank
call-IsAcceptable = record { timed = λ h. ground arith; classified = refl; bounded = omega arith }

record_events_lem_example :
    (after : Db) × (p : ObservationRow) × (record_events hasher "g-1" "i-2" 1
        (chunk ∷ call ∷ [])
        30
        observed
      ≡ ok (tt, after))
    × IsObserving "g-1" "i-2" after p
    × Sums "g-1" "i-2" hasher 30 begun (chunk ∷ call ∷ []) p
record_events_lem_example =
    record_events_lem "g-1" "i-2" hasher 30 observed begun (chunk ∷ call ∷ []) observing
      (chunk-IsAcceptable, (call-IsAcceptable, tt)) (omega arith)

event-again_example :
    (after : Db) × (record_invocation_event hasher "g-1" "i-2" 1 24 "assistant" "{}" 30 observed
      ≡ ok (tt, after))
    × (record_invocation_event hasher "g-1" "i-2" 1 25 "tool" "[]" 31 after ≡ (
        if str_eq (digest_at hasher 1 chunk) (digest_at hasher 1 call)
        then ok (tt, after)
        else err (conflict "event sequence was reused with different evidence")))
event-again_example =
    event-again "g-1" "i-2" hasher 30 31 observed begun chunk call observing chunk-IsAcceptable
      call-IsAcceptable (omega arith)

abbrev exit : StopPluginGeneration
exit = record {
  disposition = Disposition.restart;
  reason = "the process exited";
  shutdown_outcome = ShutdownOutcome.failed;
  shutdown_exit_code = some (ExitCode.status 1);
}

abbrev stopping : Result (GenerationRow × Db)
stopping = stop_plugin_generation "g-1" exit 40 observed

stops : commits stopping ≡ true
unfolding stop_plugin_generation validate_reason is_blank decimal update_generations
    plugin_generation count update find set_stopped
stops = refl

stop-again_example :
    (find (generation_by_id "g-1") (outcome stopping stops).1.generations
      ≡ some (outcome stopping stops).0)
    × (is_active_generation (outcome stopping stops).0.state ≡ false)
    × (stop_matches (outcome stopping stops).0 exit ≡ true)
    × (stop_plugin_generation "g-1" exit 50 (outcome stopping stops).1
        ≡ ok ((outcome stopping stops).0, (outcome stopping stops).1))
stop-again_example =
    stop-again "g-1" exit 40 50 observed (outcome stopping stops).1 (outcome stopping stops).0
      (tt, tt) (outcome_eq stopping stops)

seat_state-trusted_example :
    (((seat_state
          (some BindingState.active)
          (some InvocationState.dispatch_armed)
          (some GenerationHealth.active)
          false).0
        ≡ recovery_required)
      ↔ (is_uncertain_session (some BindingState.active) ≡ true))
    × ((seat_state
            (some BindingState.active)
            (some InvocationState.dispatch_armed)
            (some GenerationHealth.active)
            false).0
          ≡ working
        → is_working (some GenerationHealth.active) ≡ true)
    × ((seat_state
            (some BindingState.active)
            (some InvocationState.dispatch_armed)
            (some GenerationHealth.active)
            false).0
          ≡ idle
        → (is_working (some GenerationHealth.active) ≡ true)
          × (is_open_invocation (some InvocationState.dispatch_armed) ≡ false)
          × (is_uncertain_session (some BindingState.active) ≡ false))
    × ((seat_state
            (some BindingState.active)
            (some InvocationState.dispatch_armed)
            (some GenerationHealth.active)
            false).0
          ≡ offline
        → (is_working (some GenerationHealth.active) ≡ false)
          × (is_open_invocation (some InvocationState.dispatch_armed) ≡ false))
seat_state-trusted_example =
    seat_state-trusted (some BindingState.active) (some InvocationState.dispatch_armed)
      (some GenerationHealth.active) false
