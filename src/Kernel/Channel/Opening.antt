-- ===== src/Kernel/Channel/Opening.antt =====
-- crates/kernel/src/store/channel.rs: opening a direct conversation again.
use Prim.Native.Nat.{Ordering, compare as compare_ℕ}
use Prim.Native.Char.{Char, code}
use Prim.Native.String.compare
use Prim.Native.String.{compare, then as first_unequal}
use fleetd.Base.{
  ℕ, ◌≡◌, refl, ◌∙◌, sym, ap, subst, Bool, true, false, none, some, String, List, [], ◌∷◌, ◌++◌,
  str_eq_iff, arith, Option-cases, Bool-cases, inl, inr,
}
use fleetd.Error.{ok}
use fleetd.Table.{find, select, any, order_by, insert_by}
use fleetd.Table.Laws.{find-append}
use fleetd.Model.{DeliveryMode, CreateChannelMember}
use fleetd.Db.{Db, MemberRow}
use fleetd.Db.Tx.{bind_ok, bind-ok, then-ok}
use fleetd.Execution.Invocation.Recover.{text_le}
use fleetd.Kernel.Delivery.{ensure_agent}
use fleetd.Kernel.Channel.{
  Channel, channel_from_row, ensure_agents, insert_channel_row, insert_members, insert_member_row,
  member_row,
}
use fleetd.Kernel.Channel.Direct.{
  direct_pair_key, validate_direct_members, same_mode, same_members, in_channel, agent_le,
  ensure_direct_modes_match, direct_row, insert_direct_pair, is_pair, open_direct_in_transaction,
  open_direct_pair,
}

mode_self : (d : DeliveryMode) → same_mode d d ≡ true
mode_self DeliveryMode.inbox = refl
mode_self DeliveryMode.stream_only = refl

module _ (f s : CreateChannelMember) (id : String) (now : ℕ) where
  abbrev with_pair : List MemberRow → List MemberRow
  with_pair ms = (ms ++ member_row id now f ∷ []) ++ member_row id now s ∷ []

  -- A new channel's members are the pair.
  select_pair :
      (ms : List MemberRow)
      → any (in_channel id) ms ≡ false
      → select (in_channel id) (with_pair ms) ≡ member_row id now f ∷ member_row id now s ∷ []
  unfolding select any
  select_pair [] h = ground (arith, str_eq_iff id id)
  select_pair (m ∷ ms) h = ground (arith, select_pair ms)

  pair_matches :
      (ms : List MemberRow)
      → any (in_channel id) ms ≡ false
      → text_le f.agent_id s.agent_id ≡ true
      → same_members (order_by agent_le (select (in_channel id) (with_pair ms))) (f ∷ s ∷ []) ≡ true
  unfolding order_by insert_by
  pair_matches ms h le = rw (select_pair ms h) (
      ground (
        arith,
        mode_self f.delivery_mode,
        mode_self s.delivery_mode,
        str_eq_iff f.agent_id f.agent_id,
        str_eq_iff s.agent_id s.agent_id,
      ))

  module _ (name key : String) where
    abbrev opened : Db → Db
    opened db = record db {
      channels = db.channels ++ direct_row id name key now ∷ [];
      members = with_pair db.members;
    }

    insert-effect :
        (db after : Db) (channel : Channel)
        → insert_direct_pair id name key (f ∷ s ∷ []) now db ≡ ok (channel, after)
        → (channel ≡ channel_from_row (direct_row id name key now)) × (after ≡ opened db)
    unfolding insert_direct_pair insert_channel_row insert_members insert_member_row
    insert-effect db after channel h = (ground arith, ground arith)

    pair_found :
        (db : Db)
        → find (is_pair key) db.channels ≡ none
        → find (is_pair key) (opened db).channels ≡ some (direct_row id name key now)
    unfolding find direct_row
    pair_found db e =
        find-append (is_pair key) db.channels (direct_row id name key now ∷ []) e
        ∙ ground (arith, str_eq_iff key key)

    direct_id : (direct_row id name key now).id ≡ id
    unfolding direct_row
    direct_id = refl

    created_by :
        (db after : Db) (channel : Channel) (created : Bool)
        → find (is_pair key) db.channels ≡ none
        → open_direct_in_transaction id name key (f ∷ s ∷ []) now db
          ≡ ok ((channel, created), after)
        → insert_direct_pair id name key (f ∷ s ∷ []) now db ≡ ok (channel, after)
    unfolding open_direct_in_transaction
    created_by db after channel created e h = ground (arith, e)

    reopened :
        (id' name' : String) (later : ℕ) (db : Db)
        → any (in_channel id) db.members ≡ false
        → text_le f.agent_id s.agent_id ≡ true
        → find (is_pair key) db.channels ≡ none
        → open_direct_in_transaction id' name' key (f ∷ s ∷ []) later (opened db)
          ≡ ok ((channel_from_row (direct_row id name key now), false), opened db)
    unfolding open_direct_in_transaction ensure_direct_modes_match
    reopened id' name' later db fresh le e =
        (let there = pair_found db e in
          let same = pair_matches db.members fresh le in
          let own : (direct_row id name key now).id ≡ id = direct_id in
          ground (arith, there, same, own))

    again :
        (id' name' : String) (later : ℕ) (db after : Db) (channel : Channel) (created : Bool)
        → any (in_channel id) db.members ≡ false
        → text_le f.agent_id s.agent_id ≡ true
        → open_direct_in_transaction id name key (f ∷ s ∷ []) now db
          ≡ ok ((channel, created), after)
        → (open_direct_in_transaction id' name' key (f ∷ s ∷ []) later after
            ≡ ok ((channel, false), after))
          × (after.agents ≡ db.agents)
    unfolding open_direct_in_transaction ensure_direct_modes_match direct_row
    again id' name' later db after channel created fresh le h =
        elim (Option-cases (find (is_pair key) db.channels)) [
          | inr (row, e) ↦ (ground (arith, e), ground (arith, e))
          | inl e ↦
              let (is, rows) =
                insert-effect db after channel (created_by db after channel created e h) in
              (rw (is, rows) (reopened id' name' later db fresh le e), ap (λ x. x.agents) rows)
        ]

agents_same :
    (members : List CreateChannelMember) (db after : Db)
    → ensure_agents members db ≡ ok (tt, after)
    → after ≡ db
unfolding ensure_agents ensure_agent
agents_same [] db after h = ground arith
agents_same (m ∷ ms) db after h = ground (arith, agents_same ms db after)

agents_again :
    (members : List CreateChannelMember) (db after : Db)
    → after.agents ≡ db.agents
    → ensure_agents members db ≡ ok (tt, db)
    → ensure_agents members after ≡ ok (tt, after)
unfolding ensure_agents ensure_agent
agents_again [] db after e h = refl
agents_again (m ∷ ms) db after e h = ground (arith, agents_again ms db after e)

cons_cons :
    (c d : Char) (s t : String)
    → compare (String.◌∷◌ c s) (String.◌∷◌ d t)
      ≡ first_unequal (compare_ℕ (code c) (code d)) (compare s t)
cons_cons c d s t = λ i. compare.cons-cons c d s t i

nil_le : (b : String) → text_le String.[] b ≡ true
nil_le String.[] =
    ap (λ o. elim o as (λ _. Bool) [ Ordering.gt ↦ false | _ ↦ true ]) (λ i. compare.nil-nil i)
nil_le (String.◌∷◌ d t) =
    ap (λ o. elim o as (λ _. Bool) [ Ordering.gt ↦ false | _ ↦ true ]) (λ i. compare.nil-cons d t i)

-- Two texts are in order, one way or the other.
text_total : (a b : String) → text_le a b ≡ false → text_le b a ≡ true
text_total String.[] b h = absurd (ground (arith, nil_le b))
text_total (String.◌∷◌ c s) String.[] h = nil_le (String.◌∷◌ c s)
text_total (String.◌∷◌ c s) (String.◌∷◌ d t) h =
    ground (arith, cons_cons c d s t, cons_cons d c t s, text_total s t)

-- The participants come out in the order of their ids.
in_order :
    (input : List CreateChannelMember) (db after : Db) (f s : CreateChannelMember)
    → validate_direct_members input db ≡ ok ((f, s), after)
    → (after ≡ db)
      × (text_le f.agent_id s.agent_id ≡ true)
      × ((later : Db) → validate_direct_members input later ≡ ok ((f, s), later))
unfolding validate_direct_members
in_order [] db after f s h = absurd (ground arith)
in_order (a ∷ []) db after f s h = absurd (ground arith)
in_order (a ∷ b ∷ []) db after f s h = (
  ground arith,
  elim (Bool-cases (text_le a.agent_id b.agent_id)) [
    | inl o ↦ ground (arith, o)
    | inr o ↦ ground (arith, o, text_total a.agent_id b.agent_id o)
  ],
  λ later. ground arith,
)
in_order (a ∷ b ∷ c ∷ ms) db after f s h = absurd (ground arith)

-- Where the id that is drawn for a new channel has no members yet, a direct conversation that was
-- opened, as a new one or as one that was there, is opened again by the same participants,
-- whatever ids and time the repeat would draw: it returns the same channel, says that it is not
-- new, and changes nothing.
pub open-again :
    (id name id' name' : String) (input : List CreateChannelMember) (now later : ℕ) (db after : Db)
    (channel : Channel) (created : Bool)
    → any (in_channel id) db.members ≡ false
    → open_direct_pair id name input now db ≡ ok ((channel, created), after)
    → open_direct_pair id' name' input later after ≡ ok ((channel, false), after)
unfolding open_direct_pair
open-again id name id' name' input now later db after channel created fresh h =
    bind_ok (validate_direct_members input) _ db h λ (f, s) first v h1.
      let (one, le, repeats) = in_order input db first f s v in
      bind_ok (ensure_agents (f ∷ s ∷ [])) _ first h1 λ u second w h2.
        let two = agents_same (f ∷ s ∷ []) first second w in
        let (opens, agents) =
          again f s id now name (direct_pair_key f.agent_id s.agent_id) id' name' later second after
            channel created
            (subst (λ x. any (in_channel id) x.members ≡ false) (sym (two ∙ one)) fresh) le h2 in
        let there =
          agents_again (f ∷ s ∷ []) first after (agents ∙ ap (λ x. x.agents) two)
            (subst (λ x. ensure_agents (f ∷ s ∷ []) first ≡ ok (tt, x)) two w) in
        bind-ok (validate_direct_members input) _ after (repeats after)
          (then-ok (ensure_agents (f ∷ s ∷ [])) _ after there opens)
