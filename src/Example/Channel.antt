-- ===== src/Example/Channel.antt =====
-- A channel whose members read, a direct conversation, and an archived channel.
use fleetd.Base.{str_eq, ◌≡◌, ◌∷◌, ℕ, refl, true, false, some, String, List, [], Bool}
use fleetd.Base.Text.{decimal}
use fleetd.Error.{Result, ok}
use fleetd.Table.{find, count, update, any, select}
use fleetd.Model.{DeliveryMode, CreateChannelMember, CreateMessage}
use fleetd.Db.{Db, MemberRow}
use fleetd.Db.Demands.{Refuses}
use fleetd.Kernel.Delivery.{ensure_agent}
use fleetd.Kernel.Message.{channel_row, is_member_row, ensure_member, insert_message}
use fleetd.Kernel.Channel.{
  Channel, ensure_agents, insert_channel_row, insert_member_row, insert_members, rename_channel,
  archive_row, archive_channel,
}
use fleetd.Kernel.Channel.Direct.{
  direct_pair_key, validate_direct_members, direct_row, insert_direct_pair,
  open_direct_in_transaction, open_direct_pair,
}
use fleetd.Kernel.Channel.Opening.{open-again}
use fleetd.Kernel.Membership.{
  latest_seq, ensure_channel, validate_cursor, set_cursor, advance_member_read_cursor,
  add_member_with_mode,
}
use fleetd.Kernel.Membership.Cursor.{cursor_after, is_committed, advance_lem}
use fleetd.Kernel.Closing.{archive-Refuses}
use fleetd.Example.Data.{quiet, delivered, outcome, outcome_eq, commits}

abbrev reading : Result (ℕ × Db)
reading = advance_member_read_cursor "tasks" "worker" 1 delivered

reads : commits reading ≡ true
unfolding advance_member_read_cursor ensure_channel ensure_member validate_cursor latest_seq select
    count any update set_cursor find decimal
reads = refl

advance_lem_example :
    (m : MemberRow) × (find (is_member_row "tasks" "worker") delivered.members ≡ some m)
    × ((outcome reading reads).0 ≡ cursor_after "tasks" "worker" 1 m)
    × (find (is_member_row "tasks" "worker") (outcome reading reads).1.members
        ≡ some (record m { read_through_seq = (outcome reading reads).0 }))
    × (is_committed "tasks" "worker" 1 delivered ≡ true)
    × ((outcome reading reads).1.messages ≡ delivered.messages)
advance_lem_example =
    advance_lem "tasks" "worker" 1 delivered (outcome reading reads).1 (outcome reading reads).0
      (outcome_eq reading reads)

abbrev pair : List CreateChannelMember
pair =
    record { agent_id = "worker"; delivery_mode = DeliveryMode.inbox }
    ∷ record { agent_id = "lead"; delivery_mode = DeliveryMode.stream_only }
    ∷ []

abbrev opening : Result ((Channel × Bool) × Db)
opening = open_direct_pair "c-2" "n-2" pair 40 quiet

opens : commits opening ≡ true
unfolding open_direct_pair validate_direct_members ensure_agents ensure_agent count direct_pair_key
    open_direct_in_transaction find insert_direct_pair insert_channel_row insert_members
    insert_member_row any direct_row
opens = refl

unmet : any (λ m. str_eq m.channel_id "c-2") quiet.members ≡ false
unfolding any
unmet = refl

open-again_example :
    open_direct_pair "c-3" "n-3" pair 50 (outcome opening opens).1
    ≡ ok (((outcome opening opens).0.0, false), (outcome opening opens).1)
open-again_example =
    open-again "c-2" "n-2" "c-3" "n-3" pair 40 50 quiet (outcome opening opens).1
      (outcome opening opens).0.0 (outcome opening opens).0.1 unmet (outcome_eq opening opens)

abbrev archiving : Result (Channel × Db)
archiving = archive_channel "tasks" 60 delivered

archives : commits archiving ≡ true
unfolding archive_channel channel_row find archive_row
archives = refl

archive-Refuses_example :
    ((id : String) (created_at : ℕ) (input : CreateMessage)
      → Refuses (insert_message id created_at "tasks" input) (outcome archiving archives).1)
    × ((name : String) → Refuses (rename_channel "tasks" name) (outcome archiving archives).1)
    × ((agent_id : String) (mode : DeliveryMode) (later : ℕ)
        → Refuses (add_member_with_mode "tasks" agent_id mode later) (outcome archiving archives).1)
archive-Refuses_example =
    archive-Refuses "tasks" 60 delivered (outcome archiving archives).1
      (outcome archiving archives).0 (outcome_eq archiving archives)
