-- ===== src/Execution/Observation.antt =====
-- crates/execution/src/operations.rs: durable observations of workers and of managed turns.
pub mod Events
pub mod Generations
pub mod Pages
pub mod Seats
pub mod Log
pub mod Summary
pub mod Repeat
pub mod Stop
use fleetd.Base.{ℕ, Bool, true, false, ◌&&◌, not, none, String, [], ◌∷◌, ◌++◌, str_eq, concat, ltb}
use fleetd.Error.{invalid, conflict}
use fleetd.Table.{any}
use fleetd.Model.{GenerationState}
use fleetd.Db.{GenerationRow, ObservationRow, EventCounts, i64_max}
use fleetd.Db.Tx.{Tx, ◌>>=◌, ◌>>◌, fail_if, get, put}
use fleetd.Execution.Session.{Binding}

abbrev pub is_active_generation : GenerationState → Bool
is_active_generation GenerationState.active = true
is_active_generation GenerationState.stopped = false

abbrev pub no_events : EventCounts
no_events = record {
  prompt = 0;
  assistant = 0;
  reasoning = 0;
  tool = 0;
  plan = 0;
  usage = 0;
  metadata = 0;
  permission = 0;
  unknown = 0;
}

-- A new observation, with the column defaults.
unfoldable pub new_observation : String → String → Binding → ℕ → ObservationRow
new_observation invocation_id generation_id binding now = record {
  invocation_id = invocation_id;
  generation_id = generation_id;
  binding_id = binding.binding_id;
  binding_generation = binding.binding_generation;
  owner_epoch = binding.owner_epoch;
  started_at_ms = now;
  updated_at_ms = now;
  first_event_at_ms = none;
  last_event_at_ms = none;
  event_count = 0;
  observed_payload_bytes = 0;
  last_event_seq = 0;
  last_event_digest = none;
  event_chain_digest = none;
  counts = no_events;
  terminal_at_ms = none;
  stop_reason = none;
  runtime_stop_reason = none;
  execution_certainty = none;
  session_quiescent = none;
  session_persistence = none;
  usage = none;
}

abbrev pub serves : String → String → GenerationRow → Bool
serves generation_id agent_id g =
    str_eq g.id generation_id && str_eq g.agent_id agent_id && is_active_generation g.state

abbrev pub observes : String → ObservationRow → Bool
observes invocation_id o = str_eq o.invocation_id invocation_id

-- INSERT … SELECT: no row where the generation is not active; PRIMARY KEY (invocation_id).
unfoldable pub begin_invocation_observation : String → String → String → Binding → ℕ → Tx (Unit {0})
begin_invocation_observation agent_id invocation_id generation_id binding now = do
  fail_if (ltb i64_max binding.binding_generation) (invalid "binding generation is too large")
  fail_if (ltb i64_max binding.owner_epoch) (invalid "owner epoch is too large")
  db ← get
  fail_if (not (any (serves generation_id agent_id) db.generations)) (
      conflict (
        concat
          ("plugin generation is not active for agent " ∷ agent_id ∷ ": " ∷ generation_id ∷ [])))
  fail_if (any (observes invocation_id) db.observations)
      (conflict (concat ("invocation observation already exists: " ∷ invocation_id ∷ [])))
  put (record db {
    observations = db.observations ++ new_observation invocation_id generation_id binding now ∷ [];
  })
