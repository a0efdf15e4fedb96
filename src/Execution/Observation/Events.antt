-- ===== src/Execution/Observation/Events.antt =====
-- crates/execution/src/operations.rs: folding the events of a turn into its observation, and its
-- terminal summary. A JSON value is its serialized text.
use fleetd.Base.{
  ℕ, ◌+◌, Bool, true, false, ◌&&◌, ◌||◌, not, Option, none, some, String, List, [], ◌∷◌, ◌==◌, ltb,
  str_eq, holds_text, same_text, is_blank, len, concat, decimal, if◌then◌else◌,
}
use fleetd.Error.{invalid, conflict, not_found}
use fleetd.Table.{find}
use fleetd.Model.{ExecutionCertainty, SessionPersistence}
use fleetd.Db.{Db, GenerationRow, ObservationRow, EventCounts, i64_max}
use fleetd.Db.Statements.{update_generations, update_observations}
use fleetd.Db.Tx.{Tx, ◌>>=◌, ◌>>◌, pure, fail_if, get, expect, to_i64}
use fleetd.Kernel.Delivery.Block.{is_unset}
use fleetd.Execution.Session.Dispatch.{holds_persistence}
use fleetd.Execution.Observation.{is_active_generation, no_events, observes}

abbrev pub max_evidence_json_bytes : ℕ
max_evidence_json_bytes = 1048576

-- `bounded_json`, of a serialized value.
unfoldable pub bounded_json : String → String → Tx String
bounded_json encoded label = do
  fail_if (ltb max_evidence_json_bytes (len encoded))
      (invalid (concat (label ∷ " exceeds " ∷ decimal max_evidence_json_bytes ∷ " bytes" ∷ [])))
  pure encoded

pub data EventClass : Type 0 where
  prompt assistant reasoning tool plan usage metadata permission unknown : EventClass

-- `EventClass::parse`.
unfoldable pub parse_event_class : String → EventClass
parse_event_class classification =
    if str_eq classification "user_message_content"
    then prompt
    else if str_eq classification "agent_message_content"
    then assistant
    else if str_eq classification "reasoning_content"
    then reasoning
    else if str_eq classification "tool_call" || str_eq classification "tool_call_update"
    then tool
    else if str_eq classification "plan_update"
    then plan
    else if str_eq classification "usage"
    then usage
    else if str_eq classification "metadata"
    then metadata
    else if str_eq classification "permission_request"
    then permission
    else unknown

unfoldable pub increments_of : EventClass → EventCounts
increments_of prompt = record no_events { prompt = 1 }
increments_of assistant = record no_events { assistant = 1 }
increments_of reasoning = record no_events { reasoning = 1 }
increments_of tool = record no_events { tool = 1 }
increments_of plan = record no_events { plan = 1 }
increments_of usage = record no_events { usage = 1 }
increments_of metadata = record no_events { metadata = 1 }
increments_of permission = record no_events { permission = 1 }
increments_of unknown = record no_events { unknown = 1 }

unfoldable pub event_increments : String → EventCounts
unfolding increments_of parse_event_class
event_increments classification = increments_of (parse_event_class classification)

unfoldable pub add_counts : EventCounts → EventCounts → EventCounts
add_counts a b = record {
  prompt = a.prompt + b.prompt;
  assistant = a.assistant + b.assistant;
  reasoning = a.reasoning + b.reasoning;
  tool = a.tool + b.tool;
  plan = a.plan + b.plan;
  usage = a.usage + b.usage;
  metadata = a.metadata + b.metadata;
  permission = a.permission + b.permission;
  unknown = a.unknown + b.unknown;
}

-- The hash of the sha2 crate, of the texts that it is given in turn, as lower-case hexadecimal
-- digits; `be_bytes` is `i64::to_be_bytes`.
pub record Hasher : Type 0 where
  pub sha256 : List String → String
  pub be_bytes : ℕ → String

unfoldable pub event_digest : Hasher → ℕ → ℕ → String → String → String
event_digest h event_seq observed_at_ms classification raw = concat (
    "sha256:"
    ∷ h.sha256 (h.be_bytes event_seq ∷ h.be_bytes observed_at_ms ∷ classification ∷ "\0" ∷ raw ∷ [])
    ∷ [])

abbrev pub chain_start : Option String → String
chain_start none = "sha256:genesis"
chain_start (some previous) = previous

unfoldable pub chain_digest : Hasher → Option String → String → String
chain_digest h previous event =
    concat ("sha256:" ∷ h.sha256 (chain_start previous ∷ "\0" ∷ event ∷ []) ∷ [])

pub record EventFold : Type 0 where
  pub generation_id : String
  pub invocation_id : String
  pub previous_seq : ℕ
  pub event_seq : ℕ
  pub observed_at_ms : ℕ
  pub payload_bytes : ℕ
  pub event_digest : String
  pub chain_digest : String
  pub counts : EventCounts

abbrev pub coalesce_number : Option ℕ → ℕ → ℕ
coalesce_number none n = n
coalesce_number (some m) n = m

unfoldable pub set_folded : EventFold → ℕ → ObservationRow → ObservationRow
set_folded event now o = record o {
  updated_at_ms = now;
  first_event_at_ms = some (coalesce_number o.first_event_at_ms event.observed_at_ms);
  last_event_at_ms = some event.observed_at_ms;
  event_count = o.event_count + 1;
  observed_payload_bytes = o.observed_payload_bytes + event.payload_bytes;
  last_event_seq = event.event_seq;
  last_event_digest = some event.event_digest;
  event_chain_digest = some event.chain_digest;
  counts = add_counts o.counts event.counts;
}

abbrev pub observed_by : String → String → ObservationRow → Bool
observed_by invocation_id generation_id o =
    observes invocation_id o && str_eq o.generation_id generation_id

abbrev pub active_by_id : String → GenerationRow → Bool
active_by_id generation_id g = str_eq g.id generation_id && is_active_generation g.state

unfoldable pub set_heartbeat : ℕ → GenerationRow → GenerationRow
set_heartbeat now g = record g { last_heartbeat_at_ms = now }

-- The heartbeat that the evidence of a turn also is; it may affect no row.
unfoldable pub beat : String → ℕ → Tx (Unit {0})
beat generation_id now = do
  affected ← update_generations (active_by_id generation_id) (set_heartbeat now)
  pure tt

unfoldable pub apply_event_fold : EventFold → ℕ → Tx (Unit {0})
apply_event_fold event now = do
  updated ←
      update_observations
        (λ o.
          observed_by event.invocation_id event.generation_id o
          && o.last_event_seq == event.previous_seq)
        (set_folded event now)
  fail_if (not (updated == 1)) (conflict "invocation observation changed concurrently")
  beat event.generation_id now

-- `i64::saturating_add(1)`.
abbrev pub next_seq : ℕ → ℕ
next_seq n = if ltb n i64_max then n + 1 else i64_max

-- The observation, with the generation that makes it.
unfoldable pub observation_of : Db → String → String → Option (ObservationRow × GenerationRow)
observation_of db invocation_id generation_id =
    elim (find (observed_by invocation_id generation_id) db.observations) [
      | none ↦ none
      | some o ↦ elim (find (λ g. str_eq g.id o.generation_id) db.generations) [
        | none ↦ none
        | some g ↦ some (o, g)
      ]
    ]

-- An event under a new sequence number.
unfoldable pub fold_event :
    Hasher → ObservationRow → String → String → ℕ → ℕ → String → String → String → ℕ → Tx (Unit {0})
fold_event h o generation_id invocation_id event_seq observed_at_ms classification raw digest now =
    do
      fail_if (not (event_seq == next_seq o.last_event_seq)) (
          conflict (
            concat (
              "event sequence is not contiguous: expected "
              ∷ decimal (next_seq o.last_event_seq)
              ∷ ", received "
              ∷ decimal event_seq
              ∷ [])))
      apply_event_fold
          (record {
            generation_id = generation_id;
            invocation_id = invocation_id;
            previous_seq = o.last_event_seq;
            event_seq = event_seq;
            observed_at_ms = observed_at_ms;
            payload_bytes = len raw;
            event_digest = digest;
            chain_digest = chain_digest h o.event_chain_digest digest;
            counts = event_increments classification;
          })
          now

-- An event, once the observation has been read.
unfoldable pub fold_observed :
    Hasher
    → ObservationRow × GenerationRow
    → String
    → String
    → ℕ
    → ℕ
    → String
    → String
    → ℕ
    → Tx (Unit {0})
fold_observed h (o, g) generation_id invocation_id event_seq observed_at_ms classification raw now =
    do
      fail_if (not (is_active_generation g.state))
          (conflict "invocation generation is no longer active")
      fail_if (not (is_unset o.terminal_at_ms))
          (conflict "invocation observation is already terminal")
      let digest = event_digest h event_seq observed_at_ms classification raw
      if event_seq == o.last_event_seq
          then fail_if (not (holds_text o.last_event_digest digest))
              (conflict "event sequence was reused with different evidence")
          else fold_event h o generation_id invocation_id event_seq observed_at_ms classification
              raw digest now

unfoldable pub record_invocation_event :
    Hasher → String → String → ℕ → ℕ → String → String → ℕ → Tx (Unit {0})
record_invocation_event h generation_id invocation_id event_seq observed_at_ms classification raw
      now =
    do
      fail_if (event_seq == 0 || observed_at_ms == 0 || is_blank classification)
          (invalid "invocation event sequence, time, and classification must be valid")
      seq ← to_i64 "event sequence is too large" event_seq
      bytes ← to_i64 "event payload is too large" (len raw)
      db ← get
      row ←
          expect (observation_of db invocation_id generation_id)
            (not_found "invocation observation" invocation_id)
      fold_observed h row generation_id invocation_id seq observed_at_ms classification raw now

-- `TurnTerminal`, the parts that are recorded.
pub record TurnTerminal : Type 0 where
  pub invocation_id : String
  pub last_event_seq : ℕ
  pub stop_reason : String
  pub runtime_stop_reason : Option String
  pub execution_certainty : ExecutionCertainty
  pub session_quiescent : Bool
  pub session_persistence : SessionPersistence
  pub usage : String

abbrev holds_certainty : Option ExecutionCertainty → ExecutionCertainty → Bool
holds_certainty (some ExecutionCertainty.not_started) ExecutionCertainty.not_started = true
holds_certainty (some ExecutionCertainty.outcome_known) ExecutionCertainty.outcome_known = true
holds_certainty (some ExecutionCertainty.outcome_unknown) ExecutionCertainty.outcome_unknown = true
holds_certainty _ _ = false

abbrev holds_flag : Option Bool → Bool → Bool
holds_flag (some true) true = true
holds_flag (some false) false = true
holds_flag _ _ = false

unfoldable pub terminal_matches : ObservationRow → TurnTerminal → Bool
terminal_matches o terminal =
    holds_text o.stop_reason terminal.stop_reason
    && same_text o.runtime_stop_reason terminal.runtime_stop_reason
    && holds_certainty o.execution_certainty terminal.execution_certainty
    && holds_flag o.session_quiescent terminal.session_quiescent
    && holds_persistence o.session_persistence terminal.session_persistence
    && holds_text o.usage terminal.usage

unfoldable pub set_observed_terminal : TurnTerminal → ℕ → ObservationRow → ObservationRow
set_observed_terminal terminal now o = record o {
  updated_at_ms = now;
  terminal_at_ms = some now;
  stop_reason = some terminal.stop_reason;
  runtime_stop_reason = terminal.runtime_stop_reason;
  execution_certainty = some terminal.execution_certainty;
  session_quiescent = some terminal.session_quiescent;
  session_persistence = some terminal.session_persistence;
  usage = some terminal.usage;
}

unfoldable pub store_terminal : String → TurnTerminal → ℕ → Tx (Unit {0})
store_terminal generation_id terminal now = do
  affected ←
      update_observations
        (λ o. observed_by terminal.invocation_id generation_id o && is_unset o.terminal_at_ms)
        (set_observed_terminal terminal now)
  beat generation_id now

unfoldable pub record_invocation_terminal : String → TurnTerminal → ℕ → Tx (Unit {0})
record_invocation_terminal generation_id terminal now = do
  last_event_seq ← to_i64 "terminal event sequence is too large" terminal.last_event_seq
  encoded ← bounded_json terminal.usage "terminal usage"
  db ← get
  o ←
      expect (find (observed_by terminal.invocation_id generation_id) db.observations)
        (not_found "invocation observation" terminal.invocation_id)
  fail_if (not (o.last_event_seq == last_event_seq))
      (conflict "terminal event sequence does not match durable observations")
  if is_unset o.terminal_at_ms
      then store_terminal generation_id terminal now
      else fail_if (not (terminal_matches o terminal))
          (conflict "invocation terminal was already recorded with different evidence")
