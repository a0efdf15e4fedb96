-- ===== src/Kernel/Membership.antt =====
-- crates/kernel/src/store/membership.rs: who is in a channel, and how far each member has read.
pub mod Cursor
use fleetd.Base.{
  ℕ, Bool, true, false, ◌&&◌, ◌||◌, not, Option, none, some, String, List, [], ◌∷◌, ◌++◌, ◌==◌, ltb,
  str_eq, if◌then◌else◌, concat, decimal,
}
use fleetd.Error.{invalid, conflict, not_found, database}
use fleetd.Table.{find, count, select, update, any}
use fleetd.Model.{DeliveryMode}
use fleetd.Db.{Db, MessageRow, MemberRow}
use fleetd.Db.Tx.{Tx, ◌>>=◌, ◌>>◌, pure, fail_if, get, put, expect}
use fleetd.Kernel.Delivery.{ensure_agent}
use fleetd.Kernel.Message.{channel_row, is_member_row, ensure_member}
use fleetd.Kernel.Channel.{channel_from_row, require_mutable_shared_channel, is_channel}
use fleetd.Kernel.Channel.Direct.{same_mode}

abbrev pub in_channel : String → MessageRow → Bool
in_channel channel_id m = str_eq m.channel_id channel_id

-- COALESCE(MAX(seq), 0).
unfoldable pub latest_seq : List MessageRow → ℕ
latest_seq [] = 0
latest_seq (m ∷ ms) = let rest = latest_seq ms in if ltb rest m.seq then m.seq else rest

-- Adds a member who has read everything so far.
unfoldable pub add_new_member : String → String → DeliveryMode → ℕ → Tx (Unit {0})
add_new_member channel_id agent_id delivery_mode now = do
  db ← get
  let new : MemberRow = record {
    channel_id = channel_id;
    agent_id = agent_id;
    joined_at_ms = now;
    delivery_mode = delivery_mode;
    read_through_seq = latest_seq (select (in_channel channel_id) db.messages);
  }
  put (record db { members = db.members ++ new ∷ [] })

unfoldable pub add_member_with_mode : String → String → DeliveryMode → ℕ → Tx (Unit {0})
add_member_with_mode channel_id agent_id delivery_mode now = do
  row ← channel_row channel_id
  require_mutable_shared_channel (channel_from_row row)
  ensure_agent agent_id
  db ← get
  elim (find (is_member_row channel_id agent_id) db.members) [
    | some m ↦ fail_if (not (same_mode m.delivery_mode delivery_mode)) (
        conflict (
          concat
            ("channel membership delivery mode is immutable: " ∷ channel_id ∷ "/" ∷ agent_id ∷ [])))
    | none ↦ add_new_member channel_id agent_id delivery_mode now
  ]

unfoldable pub add_member : String → String → ℕ → Tx (Unit {0})
add_member channel_id agent_id now = add_member_with_mode channel_id agent_id DeliveryMode.inbox now

unfoldable pub ensure_channel : String → Tx (Unit {0})
ensure_channel channel_id = do
  db ← get
  fail_if (count (is_channel channel_id) db.channels == 0) (not_found "channel" channel_id)

unfoldable pub is_member : String → String → Tx Bool
is_member channel_id agent_id = do
  ensure_channel channel_id
  db ← get
  pure (count (is_member_row channel_id agent_id) db.members == 1)

-- A cursor is zero, or a message of the channel.
unfoldable pub validate_cursor : String → ℕ → Tx (Unit {0})
validate_cursor channel_id through_seq = do
  db ← get
  fail_if (ltb (latest_seq (select (in_channel channel_id) db.messages)) through_seq) (
      invalid (
        concat (
          "read cursor "
          ∷ decimal through_seq
          ∷ " is beyond the latest message in channel "
          ∷ channel_id
          ∷ [])))
  fail_if
      (ltb 0 through_seq
        && not (any (λ m. in_channel channel_id m && m.seq == through_seq) db.messages))
      (invalid (
        concat (
          "read cursor "
          ∷ decimal through_seq
          ∷ " is not a committed message in channel "
          ∷ channel_id
          ∷ [])))

abbrev pub is_behind : String → String → ℕ → MemberRow → Bool
is_behind channel_id agent_id through_seq m =
    is_member_row channel_id agent_id m && ltb m.read_through_seq through_seq

unfoldable pub set_cursor : ℕ → MemberRow → MemberRow
set_cursor through_seq m = record m { read_through_seq = through_seq }

unfoldable pub advance_member_read_cursor : String → String → ℕ → Tx ℕ
advance_member_read_cursor channel_id agent_id through_seq = do
  ensure_channel channel_id
  ensure_member channel_id agent_id
  validate_cursor channel_id through_seq
  db ← get
  put (record db {
    members =
        update (is_behind channel_id agent_id through_seq) (set_cursor through_seq) db.members;
  })
  after ← get
  m ←
      expect (find (is_member_row channel_id agent_id) after.members)
        (database "no rows returned by a query that expected to return at least one row")
  pure m.read_through_seq
