-- ===== src/Model.antt =====
-- crates/proto/src/model.rs, session.rs and operations.rs: the vocabulary of stored states and
-- the operations' inputs. A column that holds a state is modelled as the state itself: the table's
-- CHECK admits exactly the names that `parse` reads back.
pub mod Names
use fleetd.Base.{ℕ, String, Option, List}

pub data DeliveryState : Type 0 where
  pending leased blocked acknowledged dead : DeliveryState

-- The values of the column `last_settlement`.
pub data Settlement : Type 0 where
  acknowledged retry blocked : Settlement

pub data InvocationState : Type 0 where
  reserved dispatch_armed terminal : InvocationState

pub data ExecutionCertainty : Type 0 where
  not_started outcome_known outcome_unknown : ExecutionCertainty

pub data BlockResolution : Type 0 where
  requeue abandon : BlockResolution

pub data BindingState : Type 0 where
  opening ready active uncertain retired : BindingState

pub data TurnState : Type 0 where
  active quiescent uncertain : TurnState

pub data SessionPersistence : Type 0 where
  confirmed runtime_claimed unknown : SessionPersistence

pub data ConversationKind : Type 0 where
  shared direct : ConversationKind

pub data DeliveryMode : Type 0 where
  inbox stream_only : DeliveryMode

pub data GenerationState : Type 0 where
  active stopped : GenerationState

pub data Disposition : Type 0 where
  stopped restart fatal : Disposition

pub data ShutdownOutcome : Type 0 where
  graceful forced failed : ShutdownOutcome

-- An `i32`: the status, or minus one more than the number.
pub data ExitCode : Type 0 where
  status : ℕ → ExitCode
  negative_status : ℕ → ExitCode

pub record AcquireSessionBinding : Type 0 where
  pub lane_policy : String
  pub lane_key : String
  pub owner_instance_id : String
  pub profile_digest : String
  pub compatibility_digest : String
  pub working_directory : String
  pub additional_directories : List String

pub data SessionAcquisitionMode : Type 0 where
  create : SessionAcquisitionMode
  resume : String → SessionAcquisitionMode

pub record ClaimDeliveries : Type 0 where
  pub limit : ℕ
  pub lease_duration_ms : ℕ

pub record RetryDelivery : Type 0 where
  pub lease_token : String
  pub retry_after_ms : ℕ
  pub error : Option String

pub record BlockDelivery : Type 0 where
  pub lease_token : String
  pub reason : String

pub record ResolveDeliveryBlock : Type 0 where
  pub resolution : BlockResolution
  pub retry_after_ms : ℕ
  pub note : Option String

pub record ArmInvocation : Type 0 where
  pub lease_token : String
  pub fence_token : String

pub record CompleteInvocation : Type 0 where
  pub lease_token : String
  pub fence_token : String
  pub kind : String
  pub payload : String

pub record CreateMessage : Type 0 where
  pub sender_id : String
  pub idempotency_key : Option String
  pub recipient_id : Option String
  pub kind : String
  pub payload : String
  pub correlation_id : Option String
  pub causation_id : Option String

pub record CreateAgent : Type 0 where
  pub name : String
  pub metadata : String

pub record CreateChannelMember : Type 0 where
  pub agent_id : String
  pub delivery_mode : DeliveryMode

pub record CreateChannel : Type 0 where
  pub name : String
  pub metadata : String
  pub member_ids : List String
  pub members : List CreateChannelMember
