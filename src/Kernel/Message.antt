-- ===== src/Kernel/Message.antt =====
-- crates/kernel/src/store/message.rs: immutable messages, idempotent append, and the snapshot of
-- the recipients. The id (`Uuid::new_v4`) and the clock are arguments.
pub mod Append
pub mod Keep
use fleetd.Base.{
  ℕ, ◌+◌, Bool, true, false, ◌&&◌, not, Option, none, some, String, List, [], ◌∷◌, ◌++◌, map, ltb,
  ◌==◌, str_eq, holds_text, same_text, is_blank, len, if◌then◌else◌, concat, decimal,
}
use fleetd.Error.{invalid, not_found, not_member, conflict, database}
use fleetd.Table.{find, count, select, any}
use fleetd.Model.{DeliveryState, DeliveryMode, CreateMessage}
use fleetd.Db.{Db, MessageRow, Message, MemberRow, ChannelRow, DeliveryRow, message_from_row}
use fleetd.Db.Tx.{Tx, ◌>>=◌, ◌>>◌, pure, fail_if, get, put, expect}
use fleetd.Kernel.Delivery.Claim.{is_among}
use fleetd.Kernel.Delivery.Block.{is_unset}

abbrev pub max_idempotency_key_length : ℕ
max_idempotency_key_length = 256

unfoldable pub validate_idempotency_key : Option String → Tx (Unit {0})
validate_idempotency_key none = pure tt
validate_idempotency_key (some key) = do
  fail_if (is_blank key) (invalid "idempotency key must not be empty")
  fail_if (ltb max_idempotency_key_length (len key)) (
      invalid (
        concat (
          "idempotency key must not exceed " ∷ decimal max_idempotency_key_length ∷ " bytes" ∷ [])))

-- Also `message_matches_result` of crates/execution/src/invocation.rs.
unfoldable pub message_matches_input : Message → String → CreateMessage → Bool
message_matches_input message channel_id input =
    str_eq message.channel_id channel_id
    && str_eq message.sender_id input.sender_id
    && same_text message.recipient_id input.recipient_id
    && str_eq message.kind input.kind
    && str_eq message.payload input.payload
    && same_text message.correlation_id input.correlation_id
    && same_text message.causation_id input.causation_id

unfoldable pub channel_row : String → Tx ChannelRow
channel_row channel_id = do
  db ← get
  expect (find (λ c. str_eq c.id channel_id) db.channels) (not_found "channel" channel_id)

abbrev pub is_member_row : String → String → MemberRow → Bool
is_member_row channel_id agent_id m = str_eq m.channel_id channel_id && str_eq m.agent_id agent_id

unfoldable pub ensure_member : String → String → Tx (Unit {0})
ensure_member channel_id agent_id = do
  db ← get
  fail_if (count (is_member_row channel_id agent_id) db.members == 0)
      (not_member agent_id channel_id)

unfoldable pub ensure_recipient : String → Option String → Tx (Unit {0})
unfolding ensure_member
ensure_recipient channel_id none = pure tt
ensure_recipient channel_id (some recipient_id) = ensure_member channel_id recipient_id

abbrev pub is_inbox : DeliveryMode → Bool
is_inbox DeliveryMode.inbox = true
is_inbox DeliveryMode.stream_only = false

-- Who gets a delivery: the addressee, or every member but the sender; inbox members only.
unfoldable pub is_recipient : String → String → Option String → MemberRow → Bool
is_recipient channel_id sender_id none m =
    str_eq m.channel_id channel_id && not (str_eq m.agent_id sender_id) && is_inbox m.delivery_mode
is_recipient channel_id sender_id (some recipient_id) m =
    is_member_row channel_id recipient_id m && is_inbox m.delivery_mode

-- A new delivery, with the column defaults.
unfoldable pub new_delivery : ℕ → ℕ → MemberRow → DeliveryRow
new_delivery message_seq created_at_ms m = record {
  message_seq = message_seq;
  agent_id = m.agent_id;
  state = DeliveryState.pending;
  attempt = 0;
  available_at_ms = created_at_ms;
  lease_token = none;
  lease_expires_at_ms = none;
  last_error = none;
  last_settled_lease_token = none;
  last_settlement = none;
  acknowledged_at_ms = none;
  created_at_ms = created_at_ms;
}

unfoldable pub snapshot : Db → String → String → Option String → ℕ → ℕ → List DeliveryRow
snapshot db channel_id sender_id recipient_id message_seq created_at_ms =
    map (new_delivery message_seq created_at_ms)
      (select (is_recipient channel_id sender_id recipient_id) db.members)

-- PRIMARY KEY (message_seq, agent_id).
unfoldable pub insert_deliveries : List DeliveryRow → Tx (Unit {0})
insert_deliveries [] = pure tt
insert_deliveries (d ∷ ds) = do
  db ← get
  fail_if (is_among db.deliveries d) (database "UNIQUE constraint failed: agent_deliveries")
  put (record db { deliveries = db.deliveries ++ d ∷ [] })
  insert_deliveries ds

unfoldable pub insert_delivery_snapshot : String → String → Option String → ℕ → ℕ → Tx (Unit {0})
insert_delivery_snapshot channel_id sender_id recipient_id message_seq created_at_ms = do
  db ← get
  insert_deliveries (snapshot db channel_id sender_id recipient_id message_seq created_at_ms)

-- UNIQUE (id) and UNIQUE (sender_id, idempotency_key); a NULL key conflicts with none.
abbrev pub has_key : String → String → MessageRow → Bool
has_key sender_id key m = str_eq m.sender_id sender_id && holds_text m.idempotency_key key

abbrev conflicts : String → CreateMessage → MessageRow → Bool
conflicts id input m =
    if str_eq m.id id
    then true
    else elim input.idempotency_key [ none ↦ false | some key ↦ has_key input.sender_id key m ]

unfoldable pub message_row : ℕ → String → ℕ → String → CreateMessage → MessageRow
message_row seq id created_at_ms channel_id input = record {
  seq = seq;
  id = id;
  channel_id = channel_id;
  sender_id = input.sender_id;
  idempotency_key = input.idempotency_key;
  recipient_id = input.recipient_id;
  kind = input.kind;
  payload = input.payload;
  correlation_id = input.correlation_id;
  causation_id = input.causation_id;
  created_at_ms = created_at_ms;
}

-- INSERT INTO messages; `last_insert_rowid` is the new sequence number.
unfoldable pub insert_message_row : String → ℕ → String → CreateMessage → Tx MessageRow
insert_message_row id created_at_ms channel_id input = do
  db ← get
  fail_if (not (count (conflicts id input) db.messages == 0))
      (database "UNIQUE constraint failed: messages")
  let row = message_row (db.last_message_seq + 1) id created_at_ms channel_id input
  put (record db { last_message_seq = db.last_message_seq + 1; messages = db.messages ++ row ∷ [] })
  pure row

unfoldable pub insert_message : String → ℕ → String → CreateMessage → Tx Message
insert_message id created_at_ms channel_id input = do
  channel ← channel_row channel_id
  fail_if (not (is_unset channel.archived_at_ms))
      (conflict (concat ("channel is archived: " ∷ channel_id ∷ [])))
  ensure_member channel_id input.sender_id
  ensure_recipient channel_id input.recipient_id
  row ← insert_message_row id created_at_ms channel_id input
  insert_delivery_snapshot channel_id input.sender_id input.recipient_id row.seq created_at_ms
  pure (message_from_row row)

pub record AppendMessageResult : Type 0 where
  pub message : Message
  pub created : Bool

unfoldable pub append_new : String → ℕ → String → CreateMessage → Tx AppendMessageResult
append_new id created_at_ms channel_id input = do
  message ← insert_message id created_at_ms channel_id input
  pure (record { message = message; created = true })

-- A message that a sender has already appended under its key.
unfoldable pub recognise : MessageRow → String → CreateMessage → Tx AppendMessageResult
recognise row channel_id input = do
  fail_if (not (message_matches_input (message_from_row row) channel_id input))
      (conflict "idempotency key was already used for a different message")
  pure (record { message = message_from_row row; created = false })

abbrev pub repeated : Db → CreateMessage → Option MessageRow
repeated db input = elim input.idempotency_key [
  | none ↦ none
  | some key ↦ find (has_key input.sender_id key) db.messages
]

unfoldable pub append_message_in_transaction :
    String → ℕ → String → CreateMessage → Tx AppendMessageResult
append_message_in_transaction id created_at_ms channel_id input = do
  fail_if (is_blank input.kind) (invalid "message kind must not be empty")
  validate_idempotency_key input.idempotency_key
  db ← get
  elim (repeated db input) [
    | none ↦ append_new id created_at_ms channel_id input
    | some row ↦ recognise row channel_id input
  ]
