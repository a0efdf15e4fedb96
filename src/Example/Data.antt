-- ===== src/Example/Data.antt =====
-- A channel of one coordinator and one worker, with one message, its delivery and its attempt.
use fleetd.Base.{Bool, true, false, ◌≡◌, refl, none, some, String, [], ◌∷◌, arith}
use fleetd.Error.{Result, ok, err}
use fleetd.Model.{
  DeliveryState, Settlement, InvocationState, DeliveryMode, CreateMessage, ConversationKind,
}
use fleetd.Table.{find}
use fleetd.Db.{Db, AgentRow, MemberRow, MessageRow, DeliveryRow, InvocationRow}
use fleetd.Execution.Fence.{is_fenced, holds_lease, IsFenced}

-- A refused transaction has no outcome.
pub refused : ¬ (false ≡ true)
refused h = ground arith

-- Whether a transaction commits, and what it then leaves.
abbrev pub commits : {A : Type 0} → Result (A × Db) → Bool
commits (ok r) = true
commits (err e) = false

abbrev pub outcome : {A : Type 0} (r : Result (A × Db)) → commits r ≡ true → A × Db
outcome (ok r) h = r
outcome (err e) h = absurd (refused h)

pub outcome_eq : {A : Type 0} (r : Result (A × Db)) (h : commits r ≡ true) → r ≡ ok (outcome r h)
outcome_eq (ok r) h = refl
outcome_eq (err e) h = absurd (refused h)

abbrev agent : String → AgentRow
agent id = record { id = id; name = id; metadata = "{}"; created_at_ms = 1 }

abbrev member : String → MemberRow
member agent_id = record {
  channel_id = "tasks";
  agent_id = agent_id;
  joined_at_ms = 1;
  delivery_mode = DeliveryMode.inbox;
  read_through_seq = 0;
}

abbrev pub request : CreateMessage
request = record {
  sender_id = "lead";
  idempotency_key = some "task-1";
  recipient_id = some "worker";
  kind = "task";
  payload = "{}";
  correlation_id = some "c-1";
  causation_id = none;
}

abbrev pub message : MessageRow
message = record {
  seq = 1;
  id = "m-1";
  channel_id = "tasks";
  sender_id = "lead";
  idempotency_key = some "task-1";
  recipient_id = some "worker";
  kind = "task";
  payload = "{}";
  correlation_id = some "c-1";
  causation_id = none;
  created_at_ms = 10;
}

-- No message yet.
abbrev pub quiet : Db
quiet = record {
  agents = agent "lead" ∷ agent "worker" ∷ [];
  channels =
      record {
        id = "tasks";
        name = "tasks";
        kind = ConversationKind.shared;
        direct_pair_key = none;
        metadata = "{}";
        created_at_ms = 1;
        archived_at_ms = none;
      }
      ∷ [];
  members = member "lead" ∷ member "worker" ∷ [];
  messages = [];
  deliveries = [];
  blocks = [];
  invocations = [];
  bindings = [];
  turns = [];
  generations = [];
  observations = [];
  last_message_seq = 0;
  last_block_id = 0;
}

abbrev pub waiting : DeliveryRow
waiting = record {
  message_seq = 1;
  agent_id = "worker";
  state = DeliveryState.pending;
  attempt = 0;
  available_at_ms = 10;
  lease_token = none;
  lease_expires_at_ms = none;
  last_error = none;
  last_settled_lease_token = none;
  last_settlement = none;
  acknowledged_at_ms = none;
  created_at_ms = 10;
}

-- The message waits in the worker's inbox.
abbrev pub delivered : Db
delivered = record quiet {
  messages = message ∷ [];
  deliveries = waiting ∷ [];
  last_message_seq = 1;
}

abbrev pub leased : DeliveryRow
leased = record waiting {
  state = DeliveryState.leased;
  attempt = 1;
  lease_token = some "lease-1";
  lease_expires_at_ms = some 100;
}

abbrev pub attempt : InvocationState → InvocationRow
attempt state = record {
  id = "i-1";
  message_seq = 1;
  agent_id = "worker";
  delivery_attempt = 1;
  lease_token = "lease-1";
  lease_expires_at_ms = 100;
  fence_token = "fence-1";
  state = state;
  reserved_at_ms = 20;
  dispatch_armed_at_ms = none;
  terminal_at_ms = none;
  execution_certainty = none;
  terminal_reason = none;
  result_message_seq = none;
}

-- The worker holds the message under a lease, with an attempt in some state.
abbrev pub working : InvocationState → Db
working state = record delivered { deliveries = leased ∷ []; invocations = attempt state ∷ [] }

-- The delivery of a crashed attempt is parked, with its evidence.
abbrev pub parked : Db
parked = record delivered {
  deliveries =
      record leased {
        state = DeliveryState.blocked;
        lease_token = none;
        lease_expires_at_ms = none;
        last_error = some "the harness crashed";
        last_settled_lease_token = some "lease-1";
        last_settlement = some Settlement.blocked;
      }
      ∷ [];
  invocations = attempt InvocationState.terminal ∷ [];
  blocks =
      record {
        id = 1;
        message_seq = 1;
        agent_id = "worker";
        attempt = 1;
        lease_token = "lease-1";
        reason = "the harness crashed";
        blocked_at_ms = 50;
        resolved_at_ms = none;
        resolution = none;
        resolution_note = none;
        retry_after_ms = none;
      }
      ∷ [];
  last_block_id = 1;
}

pub quiet-IsFenced : IsFenced quiet
quiet-IsFenced = record { fenced = tt; single = tt; distinct = tt }

pub delivered-IsFenced : IsFenced delivered
delivered-IsFenced = record { fenced = tt; single = tt; distinct = (tt, tt) }

pub reserved-IsFenced : IsFenced (working InvocationState.reserved)
unfolding is_fenced holds_lease find
reserved-IsFenced = record { fenced = (refl, tt); single = (tt, tt); distinct = (tt, tt) }

pub armed-IsFenced : IsFenced (working InvocationState.dispatch_armed)
unfolding is_fenced holds_lease find
armed-IsFenced = record { fenced = (refl, tt); single = (tt, tt); distinct = (tt, tt) }

pub parked-IsFenced : IsFenced parked
unfolding is_fenced
parked-IsFenced = record { fenced = (refl, tt); single = (tt, tt); distinct = (tt, tt) }
