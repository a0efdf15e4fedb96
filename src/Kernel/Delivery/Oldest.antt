-- ===== src/Kernel/Delivery/Oldest.antt =====
-- crates/kernel/src/delivery.rs: which rows the subquery of a claim picks.
use fleetd.Base.{
  ℕ, zero, suc, ◌≤◌, Bool, true, ◌≡◌, refl, Option, String, List, [], ◌∷◌, arith, ◌⊎◌, inl, inr,
  Bool-cases, All, All-map, length, take, length-take-le, leb→le, str_eq_refl, ◌∙◌, ◌&&◌,
}
use fleetd.Table.{select, order_by, insert_by, any}
use fleetd.Table.Laws.{
  All-insert_by, All-order_by, All-take, select-holds, any-elim, any_self, any-order_by, any-select,
}
use fleetd.Db.{Db, DeliveryRow, same_delivery}
use fleetd.Kernel.Delivery.Claim.{claimable, chosen, seq_le, is_among}

abbrev Ordered : List DeliveryRow → Type 0
Ordered [] = Unit {0}
Ordered (d ∷ ds) = All (λ e. d.message_seq ≤ e.message_seq) ds × Ordered ds

insert_by-Ordered :
    (d : DeliveryRow) (ds : List DeliveryRow) → Ordered ds → Ordered (insert_by seq_le d ds)
unfolding insert_by
insert_by-Ordered d [] o = (tt, tt)
insert_by-Ordered d (e ∷ ds) o = elim (Bool-cases (seq_le d e)) [
  | inl h ↦ rw h ((leb→le d.message_seq e.message_seq h, All-map (λ c k. ground arith) ds o.0), o)
  | inr h ↦ rw h (
    All-insert_by (λ c. e.message_seq ≤ c.message_seq) seq_le d ds (ground arith) o.0,
    insert_by-Ordered d ds o.1,
  )
]

order_by-Ordered : (ds : List DeliveryRow) → Ordered (order_by seq_le ds)
unfolding order_by
order_by-Ordered [] = tt
order_by-Ordered (d ∷ ds) = insert_by-Ordered d (order_by seq_le ds) (order_by-Ordered ds)

-- A row of an ordered list is among the first ones, or the first ones are full and no newer.
take-oldest :
    (h : DeliveryRow → Bool) (seq : ℕ)
    → ((d : DeliveryRow) → h d ≡ true → d.message_seq ≡ seq)
    → (n : ℕ) (ds : List DeliveryRow) → Ordered ds
    → any h ds ≡ true
    → (any h (take n ds) ≡ true)
      ⊎ ((length (take n ds) ≡ n) × All (λ d. d.message_seq ≤ seq) (take n ds))
unfolding any
take-oldest h seq key zero ds o e = inr (refl, tt)
take-oldest h seq key (suc n) [] o e = absurd (ground arith)
take-oldest h seq key (suc n) (d ∷ ds) o e = elim (Bool-cases (h d)) [
  | inl hit ↦ inl (rw hit refl)
  | inr miss ↦
      let rest : any h ds ≡ true = ground arith in
      elim (take-oldest h seq key n ds o.1 rest) [
        | inl f ↦ inl (ground arith)
        | inr (full, older) ↦ inr (
          ground arith,
          (
            any-elim (λ c. d.message_seq ≤ c.message_seq) (d.message_seq ≤ seq) h ds o.0 rest
                (λ c le hit. ground (arith, key c hit)),
            older,
          ),
        )
      ]
]

module _ (db : Db) (agent_id : String) (now limit : ℕ) (kinds : Option (List String)) where
  abbrev candidates : List DeliveryRow
  candidates = order_by seq_le (select (claimable db.messages agent_id now kinds) db.deliveries)

  candidate_listed :
      All
        (λ d.
          claimable db.messages agent_id now kinds d ≡ true
          → any (λ c. same_delivery c d) candidates ≡ true)
        db.deliveries
  candidate_listed =
      All-map
        (λ d self e.
          any-order_by (λ c. same_delivery c d) seq_le
            (select (claimable db.messages agent_id now kinds) db.deliveries)
          ∙ any-select (λ c. same_delivery c d) (claimable db.messages agent_id now kinds)
              db.deliveries
          ∙ self (ground (arith, e, str_eq_refl d.agent_id)))
        db.deliveries
        (any_self (λ c d. claimable db.messages agent_id now kinds c && same_delivery c d)
          db.deliveries)

  -- The subquery of a claim picks at most `limit` rows, all of them claimable, and the oldest
  -- ones: each claimable row is picked, or the claim is full and picks no row of a newer message.
  pub chosen_lem :
      (length (chosen db agent_id now limit kinds) ≤ limit)
      × All
          (λ d. claimable db.messages agent_id now kinds d ≡ true)
          (chosen db agent_id now limit kinds)
      × All
          (λ d.
            claimable db.messages agent_id now kinds d ≡ true
            → (is_among (chosen db agent_id now limit kinds) d ≡ true)
              ⊎ ((length (chosen db agent_id now limit kinds) ≡ limit)
                  × All (λ c. c.message_seq ≤ d.message_seq) (chosen db agent_id now limit kinds)))
          db.deliveries
  unfolding chosen
  chosen_lem = (
    length-take-le limit candidates,
    All-take _ limit candidates (
        All-order_by _ seq_le (select (claimable db.messages agent_id now kinds) db.deliveries)
          (select-holds (claimable db.messages agent_id now kinds) db.deliveries)),
    All-map
        (λ d listed e.
          take-oldest (λ c. same_delivery c d) d.message_seq (λ c h. ground arith) limit candidates
            (order_by-Ordered (select (claimable db.messages agent_id now kinds) db.deliveries))
            (listed e))
        db.deliveries candidate_listed,
  )
