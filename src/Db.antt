-- ===== src/Db.antt =====
-- The durable state: the tables of crates/kernel/migrations, and transactions over them.
-- SQLite is the store's authority: BEGIN IMMEDIATE gives each operation the whole database, and an
-- operation that fails is rolled back.
pub mod Tx
pub mod Statements
pub mod Keeps
pub mod Demands
use fleetd.Base.{ℕ, String, Option, List, none, some, Bool, true, false, ◌==◌, ◌&&◌, str_eq}
use fleetd.Table.{find}
use fleetd.Model.{
  ConversationKind, DeliveryState, Settlement, InvocationState, ExecutionCertainty, BlockResolution,
  BindingState, TurnState, SessionPersistence, DeliveryMode, GenerationState, Disposition,
  ShutdownOutcome, ExitCode,
}

pub record AgentRow : Type 0 where
  pub id : String
  pub name : String
  pub metadata : String
  pub created_at_ms : ℕ

pub record ChannelRow : Type 0 where
  pub id : String
  pub name : String
  pub kind : ConversationKind
  pub direct_pair_key : Option String
  pub metadata : String
  pub created_at_ms : ℕ
  pub archived_at_ms : Option ℕ

pub record MemberRow : Type 0 where
  pub channel_id : String
  pub agent_id : String
  pub joined_at_ms : ℕ
  pub delivery_mode : DeliveryMode
  pub read_through_seq : ℕ

-- The payload is held as its stored text.
pub record MessageRow : Type 0 where
  pub seq : ℕ
  pub id : String
  pub channel_id : String
  pub sender_id : String
  pub idempotency_key : Option String
  pub recipient_id : Option String
  pub kind : String
  pub payload : String
  pub correlation_id : Option String
  pub causation_id : Option String
  pub created_at_ms : ℕ

-- `Message`, what a caller reads of a message row.
pub record Message : Type 0 where
  pub seq : ℕ
  pub id : String
  pub channel_id : String
  pub sender_id : String
  pub recipient_id : Option String
  pub kind : String
  pub payload : String
  pub correlation_id : Option String
  pub causation_id : Option String
  pub created_at_ms : ℕ

pub record DeliveryRow : Type 0 where
  pub message_seq : ℕ
  pub agent_id : String
  pub state : DeliveryState
  pub attempt : ℕ
  pub available_at_ms : ℕ
  pub lease_token : Option String
  pub lease_expires_at_ms : Option ℕ
  pub last_error : Option String
  pub last_settled_lease_token : Option String
  pub last_settlement : Option Settlement
  pub acknowledged_at_ms : Option ℕ
  pub created_at_ms : ℕ

pub record BlockRow : Type 0 where
  pub id : ℕ
  pub message_seq : ℕ
  pub agent_id : String
  pub attempt : ℕ
  pub lease_token : String
  pub reason : String
  pub blocked_at_ms : ℕ
  pub resolved_at_ms : Option ℕ
  pub resolution : Option BlockResolution
  pub resolution_note : Option String
  pub retry_after_ms : Option ℕ

pub record InvocationRow : Type 0 where
  pub id : String
  pub message_seq : ℕ
  pub agent_id : String
  pub delivery_attempt : ℕ
  pub lease_token : String
  pub lease_expires_at_ms : ℕ
  pub fence_token : String
  pub state : InvocationState
  pub reserved_at_ms : ℕ
  pub dispatch_armed_at_ms : Option ℕ
  pub terminal_at_ms : Option ℕ
  pub execution_certainty : Option ExecutionCertainty
  pub terminal_reason : Option String
  pub result_message_seq : Option ℕ

pub record BindingRow : Type 0 where
  pub binding_id : String
  pub binding_generation : ℕ
  pub agent_id : String
  pub lane_policy : String
  pub lane_key : String
  pub owner_epoch : ℕ
  pub owner_instance_id : String
  pub profile_digest : String
  pub compatibility_digest : String
  pub working_directory : String
  pub additional_directories : List String
  pub session_ref : Option String
  pub state : BindingState
  pub active_invocation_id : Option String
  pub last_quiescent_invocation_id : Option String
  pub session_persistence : Option SessionPersistence
  pub uncertain_reason : Option String
  pub retired_reason : Option String
  pub created_at_ms : ℕ
  pub updated_at_ms : ℕ
  pub opened_at_ms : Option ℕ
  pub retired_at_ms : Option ℕ

pub record TurnRow : Type 0 where
  pub invocation_id : String
  pub binding_id : String
  pub binding_generation : ℕ
  pub owner_epoch : ℕ
  pub state : TurnState
  pub started_at_ms : ℕ
  pub terminal_at_ms : Option ℕ
  pub session_persistence : Option SessionPersistence
  pub uncertain_reason : Option String

-- A JSON column is held as its text; `plugin_*`, `driver_*` and `runtime_*` describe the process.
pub record GenerationRow : Type 0 where
  pub id : String
  pub agent_id : String
  pub plugin_id : String
  pub plugin_name : String
  pub plugin_version : String
  pub interfaces : String
  pub process_id : Option ℕ
  pub driver_version : String
  pub acp_sdk_version : String
  pub acp_protocol_version : ℕ
  pub runtime_name : String
  pub runtime_version : String
  pub runtime_executable_digest : String
  pub agent_capabilities : String
  pub max_concurrent_turns : ℕ
  pub max_frame_bytes : ℕ
  pub profile_digest : String
  pub compatibility_digest : String
  pub raw_initialize_result : String
  pub heartbeat_interval_ms : ℕ
  pub state : GenerationState
  pub started_at_ms : ℕ
  pub last_heartbeat_at_ms : ℕ
  pub stopped_at_ms : Option ℕ
  pub stop_disposition : Option Disposition
  pub stop_reason : Option String
  pub shutdown_outcome : Option ShutdownOutcome
  pub shutdown_exit_code : Option ExitCode

-- The counters of the columns `*_event_count`.
pub record EventCounts : Type 0 where
  pub prompt : ℕ
  pub assistant : ℕ
  pub reasoning : ℕ
  pub tool : ℕ
  pub plan : ℕ
  pub usage : ℕ
  pub metadata : ℕ
  pub permission : ℕ
  pub unknown : ℕ

pub record ObservationRow : Type 0 where
  pub invocation_id : String
  pub generation_id : String
  pub binding_id : String
  pub binding_generation : ℕ
  pub owner_epoch : ℕ
  pub started_at_ms : ℕ
  pub updated_at_ms : ℕ
  pub first_event_at_ms : Option ℕ
  pub last_event_at_ms : Option ℕ
  pub event_count : ℕ
  pub observed_payload_bytes : ℕ
  pub last_event_seq : ℕ
  pub last_event_digest : Option String
  pub event_chain_digest : Option String
  pub counts : EventCounts
  pub terminal_at_ms : Option ℕ
  pub stop_reason : Option String
  pub runtime_stop_reason : Option String
  pub execution_certainty : Option ExecutionCertainty
  pub session_quiescent : Option Bool
  pub session_persistence : Option SessionPersistence
  pub usage : Option String

-- `last_message_seq` and `last_block_id` are SQLite's AUTOINCREMENT counters.
pub record Db : Type 0 where
  pub agents : List AgentRow
  pub channels : List ChannelRow
  pub members : List MemberRow
  pub messages : List MessageRow
  pub deliveries : List DeliveryRow
  pub blocks : List BlockRow
  pub invocations : List InvocationRow
  pub bindings : List BindingRow
  pub turns : List TurnRow
  pub generations : List GenerationRow
  pub observations : List ObservationRow
  pub last_message_seq : ℕ
  pub last_block_id : ℕ

-- The primary key of a delivery.
abbrev pub delivery_key : ℕ → String → DeliveryRow → Bool
delivery_key seq agent_id d = d.message_seq == seq && str_eq d.agent_id agent_id

abbrev pub same_delivery : DeliveryRow → DeliveryRow → Bool
same_delivery r s = delivery_key r.message_seq r.agent_id s

-- An INTEGER column holds an `i64`.
abbrev pub i64_max : ℕ
i64_max = 9223372036854775807

-- `message_seq = (SELECT seq FROM messages WHERE id = ?)`, and the join on `m.id = ?`: a message's
-- id is UNIQUE, and `seq` is its primary key.
abbrev pub of_message : List MessageRow → String → ℕ → Bool
of_message messages message_id seq = elim (find (λ m. str_eq m.id message_id) messages) [
  | none ↦ false
  | some m ↦ seq == m.seq
]

-- `JOIN messages m ON m.seq = ?`.
abbrev pub message_at : List MessageRow → ℕ → Option MessageRow
message_at messages seq = find (λ m. m.seq == seq) messages

unfoldable pub message_from_row : MessageRow → Message
message_from_row m = record {
  seq = m.seq;
  id = m.id;
  channel_id = m.channel_id;
  sender_id = m.sender_id;
  recipient_id = m.recipient_id;
  kind = m.kind;
  payload = m.payload;
  correlation_id = m.correlation_id;
  causation_id = m.causation_id;
  created_at_ms = m.created_at_ms;
}
