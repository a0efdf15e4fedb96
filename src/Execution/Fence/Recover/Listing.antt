-- ===== src/Execution/Fence/Recover/Listing.antt =====
-- crates/execution/src/invocation.rs: what one agent's recovery reads before it parks anything.
use fleetd.Base.{
  ℕ, Bool, true, false, ◌&&◌, ◌≡◌, refl, none, some, String, List, [], ◌∷◌, arith, All, All-map,
  str_eq_iff, str_eq_refl, leb, inl, inr, Bool-cases, Option, Option-cases, subst, ◌∙◌,
}
use fleetd.Error.{ok}
use fleetd.Table.{any, select, order_by}
use fleetd.Table.Laws.{
  All-update, All-select, All-order_by, All-both, select-holds, Distinct-equal, find-some,
  find-holds, any-select, any-order_by, any_self,
}
use fleetd.Model.{ExecutionCertainty}
use fleetd.Db.{Db, DeliveryRow, InvocationRow, delivery_key}
use fleetd.Db.Statements.{update_invocations}
use fleetd.Kernel.Delivery.{in_window}
use fleetd.Execution.Session.Turn.{is_terminal, is_armed}
use fleetd.Execution.Invocation.{by_id, is_reserved}
use fleetd.Execution.Invocation.Complete.{set_terminal}
use fleetd.Execution.Invocation.Recover.{
  Lapse, lapsed, lapsed_delivery, has_lapsed, expired_reservation, expired_armed, lapses,
  reserved_le, terminalize_expired_reservations,
}
use fleetd.Execution.Fence.{delivery_of, holds_lease, is_fenced, rivals, IsFenced}
use fleetd.Execution.Fence.Update.{ended, ended-IsFenced}
use fleetd.Execution.Fence.Settle.{terminal-KeepsFence}
use fleetd.Execution.Fence.Recover.Sweep.{covers, due, listed, Sweeps}

-- A fenced open attempt past its expiry still holds its lapsed delivery.
pub fenced-has_lapsed :
    (db : Db) (now : ℕ) (i : InvocationRow)
    → is_fenced db.deliveries i ≡ true
    → is_terminal i.state ≡ false
    → leb i.lease_expires_at_ms now ≡ true
    → has_lapsed db now i ≡ true
unfolding is_fenced lapsed_delivery
fenced-has_lapsed db now i f going late = elim (Option-cases (delivery_of db.deliveries i)) [
  | inl e ↦ absurd (ground arith)
  | inr (d, e) ↦
      (let held : holds_lease i d ≡ true = ground arith in
        let key = find-holds (delivery_key i.message_seq i.agent_id) db.deliveries d e in
        let late_row : lapsed now i d ≡ true =
          unfold lapsed holds_lease in_window in (ground (arith, key, held)) in
        ground (
          arith,
          find-some (delivery_key i.message_seq i.agent_id) (lapsed now i) db.deliveries d e
              late_row,
        ))
]

open-armed :
    (i : InvocationRow)
    → is_terminal i.state ≡ false
    → is_reserved i.state ≡ false
    → is_armed i.state ≡ true
open-armed i a b = ground arith

-- The row that the loop reads of an attempt.
abbrev lapse_of : InvocationRow → ℕ → Lapse
lapse_of i attempt = record {
  id = i.id;
  message_seq = i.message_seq;
  lease_token = i.lease_token;
  attempt = attempt;
}

module _ (db : Db) (now : ℕ) where
  All-lapses :
      (P : InvocationRow → Type 0) (Q : Lapse → Type 0)
      → ((i : InvocationRow) (attempt : ℕ) → P i → Q (lapse_of i attempt))
      → (is : List InvocationRow) → All P is
      → All Q (lapses db now is)
  unfolding lapses
  All-lapses P Q make [] a = tt
  All-lapses P Q make (i ∷ is) a = go (All-lapses P Q make is a.1) (lapsed_delivery db now i)
    where
      go :
          All Q (lapses db now is)
          → (o : Option DeliveryRow)
          → All Q (elim o [
            | none ↦ lapses db now is
            | some d ↦ lapse_of i d.attempt ∷ lapses db now is
          ])
      go more none = more
      go more (some d) = (make i d.attempt a.0, more)

  any-lapses :
      (g : String → Bool) (is : List InvocationRow)
      → any (λ row. g row.id) (lapses db now is) ≡ any (λ i. has_lapsed db now i && g i.id) is
  unfolding lapses any
  any-lapses g [] = refl
  any-lapses g (i ∷ is) = ground (arith, any-lapses g is)

pub rivals-symmetric : (i j : InvocationRow) → rivals i j ≡ rivals j i
rivals-symmetric i j =
    ground (arith, str_eq_iff i.agent_id j.agent_id, str_eq_iff j.agent_id i.agent_id)

module _ (agent_id : String) (now : ℕ) (db : Db) (v : IsFenced db) where
  abbrev pub rows : List InvocationRow
  rows = order_by reserved_le (select (expired_armed db agent_id now) db.invocations)

  own_covers :
      (i : InvocationRow) (attempt : ℕ) (j : InvocationRow)
      → expired_armed db agent_id now i ≡ true
      → (rivals i j ≡ true → i ≡ j)
      → covers agent_id (lapse_of i attempt) j ≡ true
  unfolding expired_armed
  own_covers i attempt j e same = elim (Bool-cases (rivals i j)) [
    | inl r ↦
        subst (λ j. covers agent_id (lapse_of i attempt) j ≡ true) (same r)
          (ground (arith, str_eq_refl i.id))
    | inr r ↦ ground (
      arith,
      str_eq_iff j.agent_id agent_id,
      str_eq_iff i.agent_id agent_id,
      str_eq_refl i.agent_id,
    )
  ]

  rows-covered :
      All (λ row. All (λ i. covers agent_id row i ≡ true) db.invocations) (lapses db now rows)
  rows-covered =
      All-lapses db now _ _
        (λ i attempt (e, a). All-map (λ j same. own_covers i attempt j e same) db.invocations a)
        rows
        (All-order_by _ reserved_le (select (expired_armed db agent_id now) db.invocations) (
          All-both _ _ (select (expired_armed db agent_id now) db.invocations)
            (select-holds (expired_armed db agent_id now) db.invocations)
            (All-select (expired_armed db agent_id now) _ db.invocations
              (Distinct-equal rivals rivals-symmetric db.invocations v.single))))

  any-rows :
      (i : InvocationRow)
      → any (λ row. by_id row.id i) (lapses db now rows)
        ≡ any
            (λ j. expired_armed db agent_id now j && (has_lapsed db now j && by_id j.id i))
            db.invocations
  any-rows i =
      any-lapses db now (λ id. by_id id i) rows
      ∙ any-order_by (λ j. has_lapsed db now j && by_id j.id i) reserved_le
          (select (expired_armed db agent_id now) db.invocations)
      ∙ any-select (λ j. has_lapsed db now j && by_id j.id i) (expired_armed db agent_id now)
          db.invocations

  rows-listed :
      All (λ i. due agent_id now i ≡ true → is_armed i.state ≡ true) db.invocations
      → All (λ i. listed (lapses db now rows) agent_id now i ≡ true) db.invocations
  rows-listed armed =
      All-map (λ i (armed, rest). one i armed rest.0 rest.1) db.invocations
        (All-both _ _ db.invocations armed (
          All-both _ _ db.invocations v.fenced (
            any_self
              (λ j i. expired_armed db agent_id now j && (has_lapsed db now j && by_id j.id i))
              db.invocations)))
    where
      one :
          (i : InvocationRow)
          → (due agent_id now i ≡ true → is_armed i.state ≡ true)
          → is_fenced db.deliveries i ≡ true
          → (expired_armed db agent_id now i && (has_lapsed db now i && by_id i.id i) ≡ true
              → any
                  (λ j. expired_armed db agent_id now j && (has_lapsed db now j && by_id j.id i))
                  db.invocations
                ≡ true)
          → listed (lapses db now rows) agent_id now i ≡ true
      one i armed f self = elim (Bool-cases (due agent_id now i)) [
        | inr e ↦ rw e refl
        | inl e ↦
            unfold due expired_armed in
            ground
              (arith, armed e, any-rows i, fenced-has_lapsed db now i f, self, str_eq_refl i.id)
      ]

  pub start-Sweeps :
      All (λ i. due agent_id now i ≡ true → is_armed i.state ≡ true) db.invocations
      → Sweeps agent_id now
          (lapses db now
            (order_by reserved_le (select (expired_armed db agent_id now) db.invocations)))
          db
  start-Sweeps armed = record { fenced = v; covered = rows-covered; pending = rows-listed armed }

-- Ending the expired reservations leaves only armed attempts to park.
module _ (agent_id : String) (now : ℕ) (db : Db) where
  abbrev pub end_reservation : InvocationRow → InvocationRow
  end_reservation =
      set_terminal ExecutionCertainty.not_started "reservation_expired_before_dispatch" now

  abbrev pub after_reservations : Db
  after_reservations = ended db (expired_reservation db agent_id now) end_reservation

  pub reservations-IsFenced : IsFenced db → IsFenced after_reservations
  reservations-IsFenced =
      ended-IsFenced db (expired_reservation db agent_id now) end_reservation (
        terminal-KeepsFence ExecutionCertainty.not_started "reservation_expired_before_dispatch"
          now)

  still_armed :
      (i : InvocationRow)
      → is_fenced db.deliveries i ≡ true
      → expired_reservation db agent_id now i ≡ false
      → due agent_id now i ≡ true
      → is_armed i.state ≡ true
  unfolding expired_reservation due
  still_armed i f e h = ground (arith, fenced-has_lapsed db now i f, open-armed i)

  pub reservations-armed :
      IsFenced db
      → All
          (λ i. due agent_id now i ≡ true → is_armed i.state ≡ true)
          after_reservations.invocations
  unfolding due set_terminal
  reservations-armed v =
      All-update (expired_reservation db agent_id now) end_reservation
        (λ i _ _ h. absurd (ground arith)) (λ i f e h. still_armed i f e h) db.invocations v.fenced

  pub reservations-effect :
      (n : ℕ) (after : Db)
      → terminalize_expired_reservations agent_id now db ≡ ok (n, after)
      → after ≡ after_reservations
  unfolding terminalize_expired_reservations update_invocations
  reservations-effect n after h = ground arith
