-- ===== src/Kernel/Channel/Direct.antt =====
-- crates/kernel/src/store/channel.rs: the conversation of one exact pair of agents.
use fleetd.Base.{
  ℕ, Bool, true, false, ◌&&◌, not, none, some, String, List, [], ◌∷◌, str_eq, holds_text,
  if◌then◌else◌, concat,
}
use fleetd.Error.{invalid, conflict, database}
use fleetd.Table.{find, select, order_by}
use fleetd.Model.{ConversationKind, DeliveryMode, CreateChannelMember}
use fleetd.Db.{ChannelRow, MemberRow}
use fleetd.Db.Tx.{Tx, ◌>>=◌, ◌>>◌, pure, fail, fail_if, get}
use fleetd.Execution.Invocation.Recover.{text_le}
use fleetd.Kernel.Channel.{
  Channel, channel_from_row, ensure_agents, insert_channel_row, insert_members,
}

unfoldable pub direct_pair_key : String → String → String
direct_pair_key first_agent_id second_agent_id =
    concat (first_agent_id ∷ ":" ∷ second_agent_id ∷ [])

-- The two participants in the order of their ids.
unfoldable pub validate_direct_members :
    List CreateChannelMember → Tx (CreateChannelMember × CreateChannelMember)
validate_direct_members (a ∷ b ∷ []) =
    if str_eq a.agent_id b.agent_id
    then fail (invalid "direct conversation participants must be distinct")
    else if text_le a.agent_id b.agent_id
    then pure (a, b)
    else pure (b, a)
validate_direct_members _ = fail (invalid "direct conversation requires exactly two participants")

abbrev pub same_mode : DeliveryMode → DeliveryMode → Bool
same_mode DeliveryMode.inbox DeliveryMode.inbox = true
same_mode DeliveryMode.stream_only DeliveryMode.stream_only = true
same_mode _ _ = false

abbrev pub same_members : List MemberRow → List CreateChannelMember → Bool
same_members [] [] = true
same_members (r ∷ rs) (m ∷ ms) =
    str_eq r.agent_id m.agent_id && same_mode r.delivery_mode m.delivery_mode && same_members rs ms
same_members _ _ = false

abbrev pub in_channel : String → MemberRow → Bool
in_channel channel_id m = str_eq m.channel_id channel_id

-- ORDER BY agent_id.
abbrev pub agent_le : MemberRow → MemberRow → Bool
agent_le a b = text_le a.agent_id b.agent_id

unfoldable pub ensure_direct_modes_match : String → List CreateChannelMember → Tx (Unit {0})
ensure_direct_modes_match channel_id members = do
  db ← get
  fail_if
      (not (same_members (order_by agent_le (select (in_channel channel_id) db.members)) members))
      (conflict "direct conversation participant delivery modes are immutable")

unfoldable pub direct_row : String → String → String → ℕ → ChannelRow
direct_row id name pair_key now = record {
  id = id;
  name = concat ("direct-" ∷ name ∷ []);
  kind = ConversationKind.direct;
  direct_pair_key = some pair_key;
  metadata = "{}";
  created_at_ms = now;
  archived_at_ms = none;
}

-- `id` and `name` are the two draws of `Uuid::new_v4`.
unfoldable pub insert_direct_pair :
    String → String → String → List CreateChannelMember → ℕ → Tx Channel
insert_direct_pair id name pair_key members now = do
  insert_channel_row (direct_row id name pair_key now)
      (database "UNIQUE constraint failed: channels")
  insert_members id now members
  pure (channel_from_row (direct_row id name pair_key now))

abbrev pub is_pair : String → ChannelRow → Bool
is_pair pair_key c = holds_text c.direct_pair_key pair_key

unfoldable pub open_direct_in_transaction :
    String → String → String → List CreateChannelMember → ℕ → Tx (Channel × Bool)
open_direct_in_transaction id name pair_key members now = do
  db ← get
  elim (find (is_pair pair_key) db.channels) [
    | some row ↦ do ensure_direct_modes_match row.id members; pure (channel_from_row row, false)
    | none ↦ do channel ← insert_direct_pair id name pair_key members now; pure (channel, true)
  ]

unfoldable pub open_direct_pair :
    String → String → List CreateChannelMember → ℕ → Tx (Channel × Bool)
open_direct_pair id name input now = do
  (first, second) ← validate_direct_members input
  ensure_agents (first ∷ second ∷ [])
  open_direct_in_transaction id name (direct_pair_key first.agent_id second.agent_id)
      (first ∷ second ∷ []) now
