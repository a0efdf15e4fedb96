-- ===== src/Execution/Observation/Generations.antt =====
-- crates/execution/src/operations.rs: the generations of a plugin process, from ready to stopped.
use fleetd.Base.{
  ℕ, ◌-◌, ◌*◌, Bool, true, false, ◌&&◌, ◌||◌, not, Option, none, some, String, [], ◌∷◌, ◌++◌, ◌==◌,
  ltb, leb, str_eq, holds_text, is_blank, len, concat, decimal, if◌then◌else◌,
}
use fleetd.Error.{invalid, conflict, not_found, database}
use fleetd.Table.{find, any}
use fleetd.Model.{GenerationState, Disposition, ShutdownOutcome, ExitCode}
use fleetd.Db.{GenerationRow, i64_max}
use fleetd.Db.Statements.{update_generations}
use fleetd.Db.Tx.{Tx, ◌>>=◌, ◌>>◌, pure, fail_if, get, put, expect, to_i64}
use fleetd.Execution.Session.{max_reason_bytes}
use fleetd.Execution.Observation.Events.{bounded_json, active_by_id, set_heartbeat}

pub record PluginIdentity : Type 0 where
  pub id : String
  pub name : String
  pub version : String

pub record DriverIdentity : Type 0 where
  pub version : String
  pub acp_sdk_version : String
  pub acp_protocol_version : ℕ

pub record RuntimeIdentity : Type 0 where
  pub name : String
  pub version : String
  pub executable_digest : String

pub record HarnessLimits : Type 0 where
  pub max_concurrent_turns : ℕ
  pub max_frame_bytes : ℕ

-- JSON values are their serialized texts.
pub record DescribeResult : Type 0 where
  pub driver : DriverIdentity
  pub runtime : RuntimeIdentity
  pub agent_capabilities : String
  pub limits : HarnessLimits
  pub profile_digest : String
  pub raw_initialize_result : String

-- The interfaces are their number and their serialized text.
pub record NewPluginGeneration : Type 0 where
  pub id : String
  pub agent_id : String
  pub plugin : PluginIdentity
  pub interface_count : ℕ
  pub interfaces : String
  pub process_id : Option ℕ
  pub description : DescribeResult
  pub compatibility_digest : String
  pub heartbeat_interval_ms : ℕ

pub record StopPluginGeneration : Type 0 where
  pub disposition : Disposition
  pub reason : String
  pub shutdown_outcome : ShutdownOutcome
  pub shutdown_exit_code : Option ExitCode

unfoldable pub validate_generation : NewPluginGeneration → Tx (Unit {0})
validate_generation generation =
    fail_if
      (is_blank generation.id
        || is_blank generation.agent_id
        || is_blank generation.compatibility_digest
        || generation.heartbeat_interval_ms == 0
        || generation.interface_count == 0)
      (invalid
        "generation identity, agent, interfaces, compatibility, and poll interval are required")

unfoldable pub validate_reason : String → Tx (Unit {0})
validate_reason reason = fail_if (is_blank reason || ltb max_reason_bytes (len reason)) (
    invalid (
      concat (
        "generation stop reason must contain between 1 and "
        ∷ decimal max_reason_bytes
        ∷ " bytes"
        ∷ [])))

unfoldable pub new_generation : NewPluginGeneration → ℕ → GenerationRow
new_generation generation now = record {
  id = generation.id;
  agent_id = generation.agent_id;
  plugin_id = generation.plugin.id;
  plugin_name = generation.plugin.name;
  plugin_version = generation.plugin.version;
  interfaces = generation.interfaces;
  process_id = generation.process_id;
  driver_version = generation.description.driver.version;
  acp_sdk_version = generation.description.driver.acp_sdk_version;
  acp_protocol_version = generation.description.driver.acp_protocol_version;
  runtime_name = generation.description.runtime.name;
  runtime_version = generation.description.runtime.version;
  runtime_executable_digest = generation.description.runtime.executable_digest;
  agent_capabilities = generation.description.agent_capabilities;
  max_concurrent_turns = generation.description.limits.max_concurrent_turns;
  max_frame_bytes = generation.description.limits.max_frame_bytes;
  profile_digest = generation.description.profile_digest;
  compatibility_digest = generation.compatibility_digest;
  raw_initialize_result = generation.description.raw_initialize_result;
  heartbeat_interval_ms = generation.heartbeat_interval_ms;
  state = GenerationState.active;
  started_at_ms = now;
  last_heartbeat_at_ms = now;
  stopped_at_ms = none;
  stop_disposition = none;
  stop_reason = none;
  shutdown_outcome = none;
  shutdown_exit_code = none;
}

abbrev pub generation_by_id : String → GenerationRow → Bool
generation_by_id id g = str_eq g.id id

unfoldable pub plugin_generation : String → Tx GenerationRow
plugin_generation generation_id = do
  db ← get
  expect (find (generation_by_id generation_id) db.generations)
      (not_found "plugin generation" generation_id)

-- The CHECKs of migration 0008 on a new row.
abbrev is_storable : GenerationRow → Bool
is_storable g =
    not (g.acp_protocol_version == 0)
    && not (g.max_concurrent_turns == 0)
    && not (g.max_frame_bytes == 0)
    && not (g.heartbeat_interval_ms == 0)

-- INSERT: PRIMARY KEY (id), then REFERENCES agents(id).
unfoldable pub insert_generation : GenerationRow → Tx (Unit {0})
insert_generation new = do
  db ← get
  fail_if (not (is_storable new)) (database "CHECK constraint failed: plugin_generations")
  fail_if (any (generation_by_id new.id) db.generations)
      (conflict (concat ("plugin generation already exists: " ∷ new.id ∷ [])))
  fail_if (not (any (λ a. str_eq a.id new.agent_id) db.agents)) (not_found "agent" new.agent_id)
  put (record db { generations = db.generations ++ new ∷ [] })

unfoldable pub record_plugin_generation : NewPluginGeneration → ℕ → Tx GenerationRow
record_plugin_generation generation now = do
  validate_generation generation
  interfaces ← bounded_json generation.interfaces "plugin interfaces"
  capabilities ← bounded_json generation.description.agent_capabilities "agent capabilities"
  initialize ← bounded_json generation.description.raw_initialize_result "raw initialize result"
  interval ← to_i64 "heartbeat interval is too large" generation.heartbeat_interval_ms
  frame ← to_i64 "maximum frame size is too large" generation.description.limits.max_frame_bytes
  insert_generation (new_generation generation now)
  plugin_generation generation.id

unfoldable pub heartbeat_plugin_generation : String → ℕ → Tx (Unit {0})
heartbeat_plugin_generation generation_id now = do
  affected ← update_generations (active_by_id generation_id) (set_heartbeat now)
  fail_if (not (affected == 1))
      (conflict (concat ("plugin generation is not active: " ∷ generation_id ∷ [])))

unfoldable pub set_stopped : StopPluginGeneration → ℕ → GenerationRow → GenerationRow
set_stopped stop now g = record g {
  state = GenerationState.stopped;
  last_heartbeat_at_ms = now;
  stopped_at_ms = some now;
  stop_disposition = some stop.disposition;
  stop_reason = some stop.reason;
  shutdown_outcome = some stop.shutdown_outcome;
  shutdown_exit_code = stop.shutdown_exit_code;
}

abbrev pub holds_disposition : Option Disposition → Disposition → Bool
holds_disposition (some Disposition.stopped) Disposition.stopped = true
holds_disposition (some Disposition.restart) Disposition.restart = true
holds_disposition (some Disposition.fatal) Disposition.fatal = true
holds_disposition _ _ = false

abbrev pub holds_outcome : Option ShutdownOutcome → ShutdownOutcome → Bool
holds_outcome (some ShutdownOutcome.graceful) ShutdownOutcome.graceful = true
holds_outcome (some ShutdownOutcome.forced) ShutdownOutcome.forced = true
holds_outcome (some ShutdownOutcome.failed) ShutdownOutcome.failed = true
holds_outcome _ _ = false

abbrev pub same_code : Option ExitCode → Option ExitCode → Bool
same_code none none = true
same_code (some (ExitCode.status m)) (some (ExitCode.status n)) = m == n
same_code (some (ExitCode.negative_status m)) (some (ExitCode.negative_status n)) = m == n
same_code _ _ = false

unfoldable pub stop_matches : GenerationRow → StopPluginGeneration → Bool
stop_matches g stop =
    holds_disposition g.stop_disposition stop.disposition
    && holds_text g.stop_reason stop.reason
    && holds_outcome g.shutdown_outcome stop.shutdown_outcome
    && same_code g.shutdown_exit_code stop.shutdown_exit_code

-- The answer to a stop that affected no row.
unfoldable pub stop_again : String → StopPluginGeneration → Tx GenerationRow
stop_again generation_id stop = do
  existing ← plugin_generation generation_id
  fail_if (not (stop_matches existing stop)) (
      conflict (
        concat
          ("plugin generation already stopped with different evidence: " ∷ generation_id ∷ [])))
  pure existing

-- Outside a transaction: the statement commits by itself, and fails only where it changed nothing.
unfoldable pub stop_plugin_generation : String → StopPluginGeneration → ℕ → Tx GenerationRow
stop_plugin_generation generation_id stop now = do
  validate_reason stop.reason
  affected ← update_generations (active_by_id generation_id) (set_stopped stop now)
  if affected == 0 then stop_again generation_id stop else plugin_generation generation_id

pub data GenerationHealth : Type 0 where
  active stale stopped : GenerationHealth

abbrev pub min_stale_after_ms : ℕ
min_stale_after_ms = 15000

abbrev pub at_most : ℕ → ℕ → ℕ
at_most bound n = if leb n bound then n else bound

abbrev pub at_least : ℕ → ℕ → ℕ
at_least bound n = if leb bound n then n else bound

-- `now.saturating_sub(heartbeat)` is negative where the heartbeat is ahead, and then not above the
-- bound, as 0 is not.
unfoldable pub generation_health : GenerationState → ℕ → ℕ → ℕ → GenerationHealth
generation_health GenerationState.stopped heartbeat_at_ms heartbeat_interval_ms now = stopped
generation_health GenerationState.active heartbeat_at_ms heartbeat_interval_ms now =
    if ltb
      (at_least min_stale_after_ms (at_most i64_max (at_most i64_max heartbeat_interval_ms * 3)))
      (now - heartbeat_at_ms)
    then stale
    else active
