-- ===== src/Kernel/Membership/Cursor.antt =====
-- crates/kernel/src/store/membership.rs: a read cursor only moves forward, to a message that is there.
use mathlib.Core.Option
use fleetd.Base.{
  ℕ, ◌≡◌, refl, ◌∙◌, ap, Bool, true, ◌&&◌, ◌||◌, Option, none, some, String, ◌==◌, ltb, arith,
  if◌then◌else◌, Option-cases, inl, inr,
}
use fleetd.Error.{ok}
use fleetd.Table.{find, update, any}
use fleetd.Table.Laws.{find-update, find-holds, changed}
use fleetd.Db.{Db, MemberRow}
use fleetd.Kernel.Message.{is_member_row, ensure_member}
use fleetd.Kernel.Membership.{
  in_channel, ensure_channel, validate_cursor, is_behind, set_cursor, advance_member_read_cursor,
}

module _ (channel_id agent_id : String) (through_seq : ℕ) where
  abbrev pub cursor_after : MemberRow → ℕ
  cursor_after m = if ltb m.read_through_seq through_seq then through_seq else m.read_through_seq

  abbrev pub is_committed : Db → Bool
  is_committed db =
      through_seq == 0 || any (λ m. in_channel channel_id m && m.seq == through_seq) db.messages

  moved_row :
      (m : MemberRow)
      → is_member_row channel_id agent_id m ≡ true
      → changed (is_behind channel_id agent_id through_seq) (set_cursor through_seq) m
        ≡ record m { read_through_seq = cursor_after m }
  unfolding set_cursor
  moved_row m h = ground arith

  cursor_found :
      (db : Db) (o : Option MemberRow)
      → find (is_member_row channel_id agent_id) db.members ≡ o
      → find
          (is_member_row channel_id agent_id)
          (update (is_behind channel_id agent_id through_seq) (set_cursor through_seq) db.members)
        ≡ Option.map
            (changed (is_behind channel_id agent_id through_seq) (set_cursor through_seq))
            o
  unfolding set_cursor
  cursor_found db o e =
      find-update (is_behind channel_id agent_id through_seq) (set_cursor through_seq)
        (is_member_row channel_id agent_id) (λ r. refl) db.members
      ∙ ap (Option.map _) e

  -- An advance of a read cursor that commits was by a member, to zero or to a message of the
  -- channel; it returns the greater of the member's cursor and the one asked for, so that the
  -- cursor never moves back; it stores that cursor, and nothing else of the member and no message
  -- changes.
  pub advance_lem :
      (db after : Db) (n : ℕ)
      → advance_member_read_cursor channel_id agent_id through_seq db ≡ ok (n, after)
      → (m : MemberRow) × (find (is_member_row channel_id agent_id) db.members ≡ some m)
        × (n ≡ cursor_after m)
        × (find (is_member_row channel_id agent_id) after.members
            ≡ some (record m { read_through_seq = n }))
        × (is_committed db ≡ true)
        × (after.messages ≡ db.messages)
  unfolding advance_member_read_cursor validate_cursor ensure_channel ensure_member
  advance_lem db after n h =
      elim (Option-cases (find (is_member_row channel_id agent_id) db.members)) [
        | inl e ↦ let up = cursor_found db none e in absurd (ground (arith, up))
        | inr (m, e) ↦
            let up = cursor_found db (some m) e in
            let on = find-holds (is_member_row channel_id agent_id) db.members m e in
            let to = moved_row m on in
            let there = up ∙ ap some to in
            let value : n ≡ cursor_after m = ground (arith, there) in
            let rows : after ≡ record db {
              members =
                  update (is_behind channel_id agent_id through_seq) (set_cursor through_seq)
                    db.members;
            } =
              ground (arith, there) in
            (m, e, value, rw (rows, value) there, ground arith, ap (λ x. x.messages) rows)
      ]
