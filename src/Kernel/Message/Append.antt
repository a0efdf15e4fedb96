-- ===== src/Kernel/Message/Append.antt =====
-- crates/kernel/src/store/message.rs: repeating an append under its key.
use fleetd.Base.{
  ℕ, ◌+◌, true, false, not, ◌≡◌, refl, none, some, Option, String, List, [], ◌∷◌, ◌++◌, arith, inl,
  inr, Option-cases, Bool-cases, ◌∙◌, is_blank, ltb, len, concat, str_eq_refl, holds_text_refl,
  same_text_refl,
}
use fleetd.Error.{ok, conflict}
use fleetd.Table.{find}
use fleetd.Table.Laws.{find-append}
use fleetd.Model.{CreateMessage}
use fleetd.Db.{Db, DeliveryRow, MessageRow, Message, ChannelRow, message_from_row}
use fleetd.Db.Tx.{bind_ok, fail_if}
use fleetd.Kernel.Delivery.Block.{is_unset}
use fleetd.Kernel.Delivery.Claim.{is_among}
use fleetd.Kernel.Message.{
  channel_row, ensure_member, ensure_recipient, snapshot, insert_deliveries,
  insert_delivery_snapshot, has_key, message_row, insert_message_row, insert_message,
  AppendMessageResult, append_new, recognise, validate_idempotency_key, max_idempotency_key_length,
  append_message_in_transaction, message_matches_input,
}

pub member-same :
    (channel_id agent_id : String) (db after : Db)
    → ensure_member channel_id agent_id db ≡ ok (tt, after)
    → after ≡ db
unfolding ensure_member
member-same channel_id agent_id db after h = ground arith

pub recipient-same :
    (channel_id : String) (recipient_id : Option String) (db after : Db)
    → ensure_recipient channel_id recipient_id db ≡ ok (tt, after)
    → after ≡ db
unfolding ensure_recipient
recipient-same channel_id none db after h = ground arith
recipient-same channel_id (some recipient_id) db after h =
    member-same channel_id recipient_id db after h

pub channel-same :
    (channel_id : String) (db after : Db) (channel : ChannelRow)
    → channel_row channel_id db ≡ ok (channel, after)
    → after ≡ db
unfolding channel_row
channel-same channel_id db after channel h = ground arith

insert_deliveries-messages :
    (rows : List DeliveryRow) (db after : Db)
    → insert_deliveries rows db ≡ ok (tt, after)
    → after.messages ≡ db.messages
unfolding insert_deliveries
insert_deliveries-messages [] db after h = ground arith
insert_deliveries-messages (d ∷ ds) db after h = elim (Bool-cases (is_among db.deliveries d)) [
  | inl e ↦ absurd (ground arith)
  | inr e ↦
      insert_deliveries-messages ds (record db { deliveries = db.deliveries ++ d ∷ [] }) after
        (ground arith)
]

module _ (id : String) (created_at : ℕ) (channel_id : String) (input : CreateMessage) where
  abbrev new_row : Db → MessageRow
  new_row db = message_row (db.last_message_seq + 1) id created_at channel_id input

  insert_row-effect :
      (db after : Db) (row : MessageRow)
      → insert_message_row id created_at channel_id input db ≡ ok (row, after)
      → (row ≡ new_row db) × (after.messages ≡ db.messages ++ new_row db ∷ [])
  unfolding insert_message_row
  insert_row-effect db after row h = ground arith

  -- A new message is the last row of its table.
  pub insert_message-effect :
      (db after : Db) (message : Message)
      → insert_message id created_at channel_id input db ≡ ok (message, after)
      → (message ≡ message_from_row (new_row db))
        × (after.messages ≡ db.messages ++ new_row db ∷ [])
  unfolding insert_message insert_delivery_snapshot
  insert_message-effect db after message h =
      bind_ok (channel_row channel_id) _ db h λ channel db0 e0 k0.
        bind_ok
          (fail_if (not (is_unset channel.archived_at_ms))
            (conflict (concat ("channel is archived: " ∷ channel_id ∷ []))))
          _ db0 k0
          λ u1 db1 e1 k1.
            bind_ok (ensure_member channel_id input.sender_id) _ db1 k1 λ u2 db2 e2 k2.
              bind_ok (ensure_recipient channel_id input.recipient_id) _ db2 k2 λ u3 db3 e3 k3.
                bind_ok (insert_message_row id created_at channel_id input) _ db3 k3
                  λ row db4 e4 k4.
                    bind_ok
                      (insert_delivery_snapshot channel_id input.sender_id input.recipient_id
                        row.seq created_at)
                      _ db4 k4
                      λ u5 db5 e5 k5.
                        let open_channel : db1 ≡ db0 = ground arith in
                        let start : db3 ≡ db =
                          recipient-same channel_id input.recipient_id db2 db3 e3
                          ∙ member-same channel_id input.sender_id db1 db2 e2
                          ∙ open_channel
                          ∙ channel-same channel_id db db0 channel e0 in
                        let (same, ms) = insert_row-effect db3 db4 row e4 in
                        let kept =
                          insert_deliveries-messages
                            (snapshot db4 channel_id input.sender_id input.recipient_id row.seq
                              created_at)
                            db4 db5 e5 in
                        ground (arith, start, same, ms, kept)

  -- A row that holds the input is recognised as its repeat.
  pub new_matches :
      (seq : ℕ)
      → message_matches_input
          (message_from_row (message_row seq id created_at channel_id input))
          channel_id
          input
        ≡ true
  unfolding message_matches_input message_from_row message_row
  new_matches seq = ground (
    arith,
    str_eq_refl channel_id,
    str_eq_refl input.sender_id,
    str_eq_refl input.kind,
    str_eq_refl input.payload,
    same_text_refl input.recipient_id,
    same_text_refl input.correlation_id,
    same_text_refl input.causation_id,
  )

-- The checks that a keyed append passes.
record Checked (key : String) (input : CreateMessage) : Type 0 where
  keyed : input.idempotency_key ≡ some key
  kind : is_blank input.kind ≡ false
  filled : is_blank key ≡ false
  short : ltb max_idempotency_key_length (len key) ≡ false

append-Checked :
    (id : String) (created_at : ℕ) (channel_id key : String) (input : CreateMessage) (db : Db)
    {result : AppendMessageResult} {after : Db}
    → input.idempotency_key ≡ some key
    → append_message_in_transaction id created_at channel_id input db ≡ ok (result, after)
    → Checked key input
unfolding append_message_in_transaction validate_idempotency_key
append-Checked id created_at channel_id key input db keyed h =
    elim (Bool-cases (is_blank input.kind)) [
      | inl e ↦ absurd (ground arith)
      | inr kind ↦ elim (Bool-cases (is_blank key)) [
        | inl e ↦ absurd (ground arith)
        | inr filled ↦ elim (Bool-cases (ltb max_idempotency_key_length (len key))) [
          | inl e ↦ absurd (ground arith)
          | inr short ↦ record { keyed = keyed; kind = kind; filled = filled; short = short }
        ]
      ]
    ]

-- A keyed append looks for its key.
append-Checked_eq :
    (id : String) (created_at : ℕ) (channel_id key : String) (input : CreateMessage) (db : Db)
    → Checked key input
    → append_message_in_transaction id created_at channel_id input db
      ≡ elim (find (has_key input.sender_id key) db.messages) [
        | none ↦ append_new id created_at channel_id input db
        | some row ↦ recognise row channel_id input db
      ]
unfolding append_message_in_transaction validate_idempotency_key
append-Checked_eq id created_at channel_id key input db c =
    elim (Option-cases (find (has_key input.sender_id key) db.messages)) [
      | inl e ↦ ground (arith, c.keyed, c.kind, c.filled, c.short)
      | inr (row, e) ↦ ground (arith, c.keyed, c.kind, c.filled, c.short)
    ]

-- An inserted message is found under its key.
new_found :
    (id : String) (created_at : ℕ) (channel_id key : String) (input : CreateMessage) (db : Db)
    → input.idempotency_key ≡ some key
    → find (has_key input.sender_id key) db.messages ≡ none
    → find
        (has_key input.sender_id key)
        (db.messages ++ new_row id created_at channel_id input db ∷ [])
      ≡ some (new_row id created_at channel_id input db)
unfolding find message_row
new_found id created_at channel_id key input db keyed e =
    find-append (has_key input.sender_id key) db.messages
      (new_row id created_at channel_id input db ∷ []) e
    ∙ rw (keyed, str_eq_refl input.sender_id, holds_text_refl key) refl

-- Once an append under an idempotency key has succeeded, repeating it with the same input,
-- whatever id and time it would draw, returns the same message, says that it is not new, and
-- changes nothing.
pub append-again :
    (id : String) (created_at : ℕ) (id' : String) (created_at' : ℕ) (channel_id key : String)
    (input : CreateMessage) (db after : Db) (result : AppendMessageResult)
    → input.idempotency_key ≡ some key
    → append_message_in_transaction id created_at channel_id input db ≡ ok (result, after)
    → append_message_in_transaction id' created_at' channel_id input after
      ≡ ok (record { message = result.message; created = false }, after)
unfolding append_new recognise
append-again id created_at id' created_at' channel_id key input db after result keyed h =
    let c = append-Checked id created_at channel_id key input db keyed h in
    let first = append-Checked_eq id created_at channel_id key input db c in
    let second = append-Checked_eq id' created_at' channel_id key input after c in
    elim (Option-cases (find (has_key input.sender_id key) db.messages)) [
      | inl e ↦
          let inserted : insert_message id created_at channel_id input db
              ≡ ok (result.message, after) =
            ground arith in
          let (same, ms) =
            insert_message-effect id created_at channel_id input db after result.message inserted in
          ground (
            arith,
            second,
            same,
            ms,
            new_found id created_at channel_id key input db keyed e,
            new_matches id created_at channel_id input (db.last_message_seq + 1),
          )
      | inr (row, e) ↦ ground (arith, first, second)
    ]
