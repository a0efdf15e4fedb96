-- ===== src/Kernel/Channel.antt =====
-- crates/kernel/src/store/channel.rs, and agent.rs: agents, shared channels, and the membership that
-- a channel begins with. The ids (`Uuid::new_v4`) and the clock are arguments.
pub mod Direct
pub mod Opening
use fleetd.Base.{
  ℕ, Bool, true, false, ◌&&◌, ◌||◌, not, Option, none, some, String, List, [], ◌∷◌, ◌++◌, map, ◌==◌,
  str_eq, is_blank, if◌then◌else◌, concat,
}
use fleetd.Error.{FleetError, invalid, conflict, not_found, database}
use fleetd.Table.{find, count, update, any}
use fleetd.Model.{ConversationKind, DeliveryMode, CreateAgent, CreateChannel, CreateChannelMember}
use fleetd.Db.{Db, AgentRow, ChannelRow, MemberRow}
use fleetd.Db.Tx.{Tx, ◌>>=◌, ◌>>◌, pure, fail_if, get, put}
use fleetd.Kernel.Delivery.{ensure_agent}
use fleetd.Kernel.Delivery.Block.{is_unset}
use fleetd.Kernel.Message.{channel_row, is_member_row}

pub record Channel : Type 0 where
  pub id : String
  pub name : String
  pub kind : ConversationKind
  pub metadata : String
  pub created_at_ms : ℕ
  pub archived_at_ms : Option ℕ

unfoldable pub channel_from_row : ChannelRow → Channel
channel_from_row c = record {
  id = c.id;
  name = c.name;
  kind = c.kind;
  metadata = c.metadata;
  created_at_ms = c.created_at_ms;
  archived_at_ms = c.archived_at_ms;
}

unfoldable pub validate_name : String → String → Tx (Unit {0})
validate_name entity name =
    fail_if (is_blank name) (invalid (concat (entity ∷ " name must not be empty" ∷ [])))

-- INSERT: PRIMARY KEY (id) and UNIQUE (name), both through `map_unique_conflict`.
unfoldable pub create_agent : String → CreateAgent → ℕ → Tx AgentRow
create_agent id input now = do
  validate_name "agent" input.name
  let agent : AgentRow = record {
    id = id;
    name = input.name;
    metadata = input.metadata;
    created_at_ms = now;
  }
  db ← get
  fail_if (any (λ a. str_eq a.id id || str_eq a.name input.name) db.agents)
      (conflict "agent name already exists")
  put (record db { agents = db.agents ++ agent ∷ [] })
  pure agent

abbrev pub is_shared : ConversationKind → Bool
is_shared ConversationKind.shared = true
is_shared ConversationKind.direct = false

unfoldable pub require_mutable_shared_channel : Channel → Tx (Unit {0})
require_mutable_shared_channel channel = do
  fail_if (not (is_shared channel.kind))
      (conflict "direct conversation membership and name are immutable")
  fail_if (not (is_unset channel.archived_at_ms))
      (conflict (concat ("channel is archived: " ∷ channel.id ∷ [])))

-- The loop that inserts into `seen`.
unfoldable pub ensure_distinct : List String → List CreateChannelMember → Tx (Unit {0})
ensure_distinct seen [] = pure tt
ensure_distinct seen (m ∷ ms) = do
  fail_if (any (str_eq m.agent_id) seen)
      (invalid (concat ("duplicate initial channel member: " ∷ m.agent_id ∷ [])))
  ensure_distinct (m.agent_id ∷ seen) ms

unfoldable pub ensure_agents : List CreateChannelMember → Tx (Unit {0})
ensure_agents [] = pure tt
ensure_agents (m ∷ ms) = do ensure_agent m.agent_id; ensure_agents ms

-- UNIQUE (id), UNIQUE (name), and the unique index on the pair key.
abbrev pub clashes_channel : ChannelRow → ChannelRow → Bool
clashes_channel new c = str_eq c.id new.id || str_eq c.name new.name || (elim new.direct_pair_key [
  | none ↦ false
  | some key ↦ elim c.direct_pair_key [ none ↦ false | some k ↦ str_eq k key ]
])

unfoldable pub insert_channel_row : ChannelRow → FleetError → Tx (Unit {0})
insert_channel_row new clash = do
  db ← get
  fail_if (any (clashes_channel new) db.channels) clash
  put (record db { channels = db.channels ++ new ∷ [] })

-- A new membership has read nothing.
abbrev pub member_row : String → ℕ → CreateChannelMember → MemberRow
member_row channel_id now m = record {
  channel_id = channel_id;
  agent_id = m.agent_id;
  joined_at_ms = now;
  delivery_mode = m.delivery_mode;
  read_through_seq = 0;
}

-- PRIMARY KEY (channel_id, agent_id).
unfoldable pub insert_member_row : MemberRow → Tx (Unit {0})
insert_member_row new = do
  db ← get
  fail_if (any (is_member_row new.channel_id new.agent_id) db.members)
      (database "UNIQUE constraint failed: channel_members")
  put (record db { members = db.members ++ new ∷ [] })

unfoldable pub insert_members : String → ℕ → List CreateChannelMember → Tx (Unit {0})
insert_members channel_id now [] = pure tt
insert_members channel_id now (m ∷ ms) = do
  insert_member_row (member_row channel_id now m)
  insert_members channel_id now ms

unfoldable pub create_channel_with_members :
    String → String → String → List CreateChannelMember → ℕ → Tx Channel
create_channel_with_members id name metadata members now = do
  validate_name "channel" name
  ensure_distinct [] members
  ensure_agents members
  let row : ChannelRow = record {
    id = id;
    name = name;
    kind = ConversationKind.shared;
    direct_pair_key = none;
    metadata = metadata;
    created_at_ms = now;
    archived_at_ms = none;
  }
  insert_channel_row row (conflict "channel name already exists")
  insert_members id now members
  pure (channel_from_row row)

abbrev inbox_member : String → CreateChannelMember
inbox_member agent_id = record { agent_id = agent_id; delivery_mode = DeliveryMode.inbox }

unfoldable pub create_channel : String → CreateChannel → ℕ → Tx Channel
create_channel id input now = do
  let members = map inbox_member input.member_ids ++ input.members
  ensure_distinct [] members
  create_channel_with_members id input.name input.metadata members now

abbrev pub is_channel : String → ChannelRow → Bool
is_channel channel_id c = str_eq c.id channel_id

unfoldable pub rename_channel : String → String → Tx Channel
rename_channel channel_id name = do
  validate_name "channel" name
  row ← channel_row channel_id
  require_mutable_shared_channel (channel_from_row row)
  db ← get
  fail_if (any (λ c. str_eq c.name name && not (is_channel channel_id c)) db.channels)
      (conflict "channel name already exists")
  put (record db {
    channels = update (is_channel channel_id) (λ c. record c { name = name }) db.channels;
  })
  pure (record (channel_from_row row) { name = name })

unfoldable pub archive_row : ChannelRow → ℕ → Tx Channel
archive_row row now = do
  db ← get
  put (record db {
    channels = update (is_channel row.id) (λ c. record c { archived_at_ms = some now }) db.channels;
  })
  pure (record (channel_from_row row) { archived_at_ms = some now })

unfoldable pub archive_channel : String → ℕ → Tx Channel
archive_channel channel_id now = do
  row ← channel_row channel_id
  fail_if (not (is_shared row.kind)) (conflict "direct conversations cannot be archived")
  if is_unset row.archived_at_ms then archive_row row now else pure (channel_from_row row)
