-- ===== src/Kernel/Delivery/Block.antt =====
-- crates/kernel/src/delivery.rs: the evidence of a parked delivery, and the operator's decision.
use fleetd.Base.{
  ℕ, ◌+◌, Bool, true, false, ◌&&◌, not, Option, none, some, String, [], ◌∷◌, ◌++◌, ◌==◌, str_eq,
  same_text, if◌then◌else◌, decimal,
}
use fleetd.Error.{not_found, conflict, lease_conflict, database}
use fleetd.Table.{update, count, find}
use fleetd.Model.{DeliveryState, BlockResolution, BlockDelivery, ResolveDeliveryBlock}
use fleetd.Db.{
  Db, DeliveryRow, BlockRow, Message, of_message, message_at, message_from_row, delivery_key,
}
use fleetd.Db.Statements.{update_deliveries}
use fleetd.Db.Tx.{Tx, ◌>>=◌, ◌>>◌, pure, fail, fail_if, get, put, lift, expect, to_i64, checked_add}
use fleetd.Kernel.Delivery.{is_blocked}
use fleetd.Kernel.Delivery.Validate.{validate_resolution}

-- What an operator reads of a block.
pub record BlockedDelivery : Type 0 where
  pub block_id : ℕ
  pub agent_id : String
  pub message : Message
  pub attempt : ℕ
  pub reason : String
  pub blocked_at_ms : ℕ

-- UNIQUE (message_seq, agent_id, lease_token).
abbrev pub block_key : ℕ → String → String → BlockRow → Bool
block_key seq agent_id lease_token b =
    b.message_seq == seq && str_eq b.agent_id agent_id && str_eq b.lease_token lease_token

-- INSERT INTO delivery_blocks; the id is the next one.
unfoldable pub record_block : ℕ → String → ℕ → String → String → ℕ → Tx (Unit {0})
record_block message_seq agent_id attempt lease_token reason blocked_at_ms = do
  db ← get
  fail_if (not (count (block_key message_seq agent_id lease_token) db.blocks == 0))
      (database "UNIQUE constraint failed: delivery_blocks")
  put (record db {
    last_block_id = db.last_block_id + 1;
    blocks =
        db.blocks
        ++ record {
          id = db.last_block_id + 1;
          message_seq = message_seq;
          agent_id = agent_id;
          attempt = attempt;
          lease_token = lease_token;
          reason = reason;
          blocked_at_ms = blocked_at_ms;
          resolved_at_ms = none;
          resolution = none;
          resolution_note = none;
          retry_after_ms = none;
        }
          ∷ [];
  })

-- The same, for the delivery of a message that has just been parked.
unfoldable pub insert_block_record : String → String → BlockDelivery → ℕ → Tx ℕ
unfolding record_block
insert_block_record agent_id message_id input blocked_at_ms = do
  db ← get
  d ←
      expect
        (find
          (λ d.
            str_eq d.agent_id agent_id
            && of_message db.messages message_id d.message_seq
            && is_blocked d.state)
          db.deliveries)
        (lease_conflict "blocked delivery changed before evidence was recorded")
  record_block d.message_seq d.agent_id d.attempt input.lease_token input.reason blocked_at_ms
  pure (db.last_block_id + 1)

unfoldable pub blocked_delivery_from_row : Db → BlockRow → Option BlockedDelivery
blocked_delivery_from_row db b = elim (message_at db.messages b.message_seq) [
  | none ↦ none
  | some m ↦ some (record {
    block_id = b.id;
    agent_id = b.agent_id;
    message = message_from_row m;
    attempt = b.attempt;
    reason = b.reason;
    blocked_at_ms = b.blocked_at_ms;
  })
]

unfoldable pub blocked_delivery_by_id : ℕ → Tx BlockedDelivery
blocked_delivery_by_id block_id = do
  db ← get
  b ←
      expect (find (λ b. b.id == block_id) db.blocks)
        (not_found "delivery block" (decimal block_id))
  expect (blocked_delivery_from_row db b) (not_found "delivery block" (decimal block_id))

abbrev with_reason : BlockRow → Option BlockedDelivery → Option (BlockedDelivery × String)
with_reason b none = none
with_reason b (some d) = some (d, b.reason)

unfoldable pub blocked_delivery_by_lease :
    String → String → String → Tx (Option (BlockedDelivery × String))
unfolding blocked_delivery_from_row
blocked_delivery_by_lease agent_id message_id lease_token = do
  db ← get
  pure
      (elim (find
        (λ b.
          str_eq b.agent_id agent_id
          && of_message db.messages message_id b.message_seq
          && str_eq b.lease_token lease_token)
        db.blocks) [ none ↦ none | some b ↦ with_reason b (blocked_delivery_from_row db b) ])

abbrev pub same_resolution : Option BlockResolution → BlockResolution → Bool
same_resolution (some BlockResolution.requeue) BlockResolution.requeue = true
same_resolution (some BlockResolution.abandon) BlockResolution.abandon = true
same_resolution _ _ = false

abbrev pub holds_number : Option ℕ → ℕ → Bool
holds_number none n = false
holds_number (some m) n = m == n

-- The block, with the delivery that it parked.
unfoldable pub resolution_row : ℕ → Tx (BlockRow × DeliveryRow)
resolution_row block_id = do
  db ← get
  b ←
      expect (find (λ b. b.id == block_id) db.blocks)
        (not_found "delivery block" (decimal block_id))
  d ←
      expect (find (delivery_key b.message_seq b.agent_id) db.deliveries)
        (not_found "delivery block" (decimal block_id))
  pure (b, d)

-- Whether the block was resolved before, and by this very decision; another one conflicts.
unfoldable pub resolution_is_replay : BlockRow → ResolveDeliveryBlock → ℕ → Tx Bool
resolution_is_replay b input retry_after_ms = elim b.resolved_at_ms [
  | none ↦ pure false
  | some at ↦
      if same_resolution b.resolution input.resolution
        && same_text b.resolution_note input.note
        && holds_number b.retry_after_ms retry_after_ms
      then pure true
      else fail (conflict "delivery block was already resolved differently")
]

-- COALESCE(?, last_error).
abbrev pub coalesce : Option String → Option String → Option String
coalesce none old = old
coalesce (some new) old = some new

unfoldable pub set_requeued : ℕ → Option String → DeliveryRow → DeliveryRow
set_requeued available_at_ms note d = record d {
  state = DeliveryState.pending;
  available_at_ms = available_at_ms;
  last_error = coalesce note d.last_error;
  last_settled_lease_token = none;
  last_settlement = none;
}

unfoldable pub set_dead : Option String → DeliveryRow → DeliveryRow
set_dead note d = record d {
  state = DeliveryState.dead;
  last_error = coalesce note d.last_error;
  last_settled_lease_token = none;
  last_settlement = none;
}

abbrev pub blocked_row : ℕ → String → DeliveryRow → Bool
blocked_row message_seq agent_id d = delivery_key message_seq agent_id d && is_blocked d.state

abbrev require_changed : ℕ → Tx (Unit {0})
require_changed affected =
    fail_if (not (affected == 1)) (conflict "delivery block changed during resolution")

unfoldable pub resolve_row_as :
    BlockResolution → BlockRow → ResolveDeliveryBlock → ℕ → ℕ → Tx (Unit {0})
resolve_row_as BlockResolution.requeue b input retry_after_ms now = do
  available_at_ms ← checked_add "retry time overflowed" now retry_after_ms
  affected ←
      update_deliveries (blocked_row b.message_seq b.agent_id)
        (set_requeued available_at_ms input.note)
  require_changed affected
resolve_row_as BlockResolution.abandon b input retry_after_ms now = do
  affected ← update_deliveries (blocked_row b.message_seq b.agent_id) (set_dead input.note)
  require_changed affected

unfoldable pub resolve_delivery_row : BlockRow → ResolveDeliveryBlock → ℕ → ℕ → Tx (Unit {0})
unfolding resolve_row_as
resolve_delivery_row b input retry_after_ms now =
    resolve_row_as input.resolution b input retry_after_ms now

-- `column IS NULL`.
abbrev pub is_unset {ℓ} : {A : Type ℓ} → Option A → Bool
is_unset none = true
is_unset (some a) = false

abbrev pub unresolved_block : ℕ → BlockRow → Bool
unresolved_block block_id b = b.id == block_id && is_unset b.resolved_at_ms

unfoldable pub set_resolved : ResolveDeliveryBlock → ℕ → ℕ → BlockRow → BlockRow
set_resolved input retry_after_ms now b = record b {
  resolved_at_ms = some now;
  resolution = some input.resolution;
  resolution_note = input.note;
  retry_after_ms = some retry_after_ms;
}

unfoldable pub mark_block_resolved : ℕ → ResolveDeliveryBlock → ℕ → ℕ → Tx (Unit {0})
mark_block_resolved block_id input retry_after_ms now = do
  db ← get
  put (record db {
    blocks = update (unresolved_block block_id) (set_resolved input retry_after_ms now) db.blocks;
  })
  require_changed (count (unresolved_block block_id) db.blocks)

-- `resolve_delivery_block_transaction`, once the row has been read.
unfoldable pub apply_resolution :
    ℕ → ResolveDeliveryBlock → ℕ → ℕ → BlockRow × DeliveryRow → Tx (Unit {0})
apply_resolution block_id input retry_after_ms now (b, d) = do
  replay ← resolution_is_replay b input retry_after_ms
  if replay then pure tt else do
    fail_if (not (is_blocked d.state))
        (conflict "delivery block is not the current unresolved block")
    resolve_delivery_row b input retry_after_ms now
    mark_block_resolved block_id input retry_after_ms now

unfoldable pub resolve_delivery_block_transaction : ℕ → ResolveDeliveryBlock → ℕ → Tx (Unit {0})
resolve_delivery_block_transaction block_id input now = do
  lift (validate_resolution block_id input)
  retry_after_ms ← to_i64 "retry delay is too large" input.retry_after_ms
  row ← resolution_row block_id
  apply_resolution block_id input retry_after_ms now row
