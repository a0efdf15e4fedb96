-- ===== src/Kernel/Closing.antt =====
-- crates/kernel/src/store/channel.rs: an archived channel takes no message, no name and no member.
use mathlib.Core.Option
use fleetd.Base.{
  ℕ, ◌≡◌, refl, ◌∙◌, ap, Bool, true, false, none, some, String, arith, str_eq_iff, Option-cases,
  inl, inr,
}
use fleetd.Error.{ok}
use fleetd.Table.{find}
use fleetd.Table.Laws.{find-update, find-holds}
use fleetd.Model.{DeliveryMode, CreateMessage}
use fleetd.Db.{Db}
use fleetd.Db.Demands.{Demands, Refuses, refuses}
use fleetd.Kernel.Delivery.Block.{is_unset}
use fleetd.Kernel.Message.{channel_row, insert_message}
use fleetd.Kernel.Channel.{
  Channel, channel_from_row, validate_name, require_mutable_shared_channel, is_channel,
  rename_channel, archive_row, archive_channel,
}
use fleetd.Kernel.Membership.{add_member_with_mode}

module _ (channel_id : String) where
  abbrev pub is_open : Db → Bool
  is_open db = elim (find (is_channel channel_id) db.channels) [
    | none ↦ false
    | some c ↦ is_unset c.archived_at_ms
  ]

  abbrev IsOpen : Db → Type 0
  IsOpen db = is_open db ≡ true

  insert-IsOpen :
      (id : String) (created_at : ℕ) (input : CreateMessage)
      → Demands IsOpen (insert_message id created_at channel_id input)
  unfolding insert_message channel_row
  insert-IsOpen id created_at input = record { demanded = λ db after a h. ground arith }

  rename-IsOpen : (name : String) → Demands IsOpen (rename_channel channel_id name)
  unfolding rename_channel channel_row require_mutable_shared_channel validate_name channel_from_row
  rename-IsOpen name = record { demanded = λ db after a h. ground arith }

  add-IsOpen :
      (agent_id : String) (mode : DeliveryMode) (now : ℕ)
      → Demands IsOpen (add_member_with_mode channel_id agent_id mode now)
  unfolding add_member_with_mode channel_row require_mutable_shared_channel channel_from_row
  add-IsOpen agent_id mode now = record { demanded = λ db after a h. ground arith }

  archived :
      (now : ℕ) (db after : Db) (channel : Channel)
      → archive_channel channel_id now db ≡ ok (channel, after)
      → is_open after ≡ false
  unfolding archive_channel channel_row archive_row
  archived now db after channel h = elim (Option-cases (find (is_channel channel_id) db.channels)) [
    | inl e ↦ absurd (ground (arith, e))
    | inr (c, e) ↦
        let on = find-holds (is_channel channel_id) db.channels c e in
        let up =
          find-update (is_channel c.id) (λ k. record k { archived_at_ms = some now })
            (is_channel channel_id) (λ k. refl) db.channels
          ∙ ap (Option.map _) e in
        ground (arith, e, up, str_eq_iff c.id c.id)
  ]

  -- After a channel has been archived, every new message to it, every new name for it and every
  -- addition of a member to it is refused.
  pub archive-Refuses :
      (now : ℕ) (db after : Db) (channel : Channel)
      → archive_channel channel_id now db ≡ ok (channel, after)
      → ((id : String) (created_at : ℕ) (input : CreateMessage)
          → Refuses (insert_message id created_at channel_id input) after)
        × ((name : String) → Refuses (rename_channel channel_id name) after)
        × ((agent_id : String) (mode : DeliveryMode) (later : ℕ)
            → Refuses (add_member_with_mode channel_id agent_id mode later) after)
  archive-Refuses now db after channel h =
      (let shut = archived now db after channel h in
        let closed : ¬ (IsOpen after) = λ o. absurd (ground (arith, shut)) in
        (
          (λ id created_at input. refuses _ after (insert-IsOpen id created_at input) closed),
          (λ name. refuses _ after (rename-IsOpen name) closed),
          (λ agent_id mode later. refuses _ after (add-IsOpen agent_id mode later) closed),
        ))
