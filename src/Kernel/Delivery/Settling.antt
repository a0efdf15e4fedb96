-- ===== src/Kernel/Delivery/Settling.antt =====
-- What a settlement of one lease does to the rows of crates/kernel/src/delivery.rs.
use fleetd.Base.{
  ℕ, Bool, true, false, ◌&&◌, ◌≡◌, refl, ◌∙◌, none, some, String, List, arith, Option-cases, inl,
  inr, str_eq, str_eq_iff,
}
use fleetd.Error.{ok}
use fleetd.Table.{update, count, find}
use fleetd.Table.Laws.{Distinct, Distinct-update, find-update, count-find, update-count_zero}
use fleetd.Model.{RetryDelivery}
use fleetd.Db.{Db, DeliveryRow, MessageRow, same_delivery}
use fleetd.Db.Statements.{update_deliveries}
use fleetd.Kernel.Delivery.{
  LeasedRow, LeaseWindow, DeliveryKey, key_matches, leased_row, settle, set_acknowledged, set_retry,
  set_blocked,
}

-- A settlement writes no key, and leaves no lease.
pub record Settles (set : DeliveryRow → DeliveryRow) : Type 0 where
  pub keeps_seq : (d : DeliveryRow) → (set d).message_seq ≡ d.message_seq
  pub keeps_agent : (d : DeliveryRow) → (set d).agent_id ≡ d.agent_id
  pub drops_lease : (d : DeliveryRow) → (set d).lease_token ≡ none

pub acknowledged-Settles : (token : String) (now : ℕ) → Settles (set_acknowledged token now)
unfolding set_acknowledged
acknowledged-Settles token now = record {
  keeps_seq = λ d. refl;
  keeps_agent = λ d. refl;
  drops_lease = λ d. refl;
}

pub retry-Settles : (input : RetryDelivery) (at : ℕ) → Settles (set_retry input at)
unfolding set_retry
retry-Settles input at = record {
  keeps_seq = λ d. refl;
  keeps_agent = λ d. refl;
  drops_lease = λ d. refl;
}

pub blocked-Settles : (reason token : String) → Settles (set_blocked reason token)
unfolding set_blocked
blocked-Settles reason token = record {
  keeps_seq = λ d. refl;
  keeps_agent = λ d. refl;
  drops_lease = λ d. refl;
}

-- Two rows that a settlement's key and agent select are one row.
abbrev pub addressed : List MessageRow → LeasedRow → DeliveryRow → Bool
addressed messages row d =
    key_matches messages row.key d.message_seq && str_eq d.agent_id row.agent_id

key_matches_unique :
    (messages : List MessageRow) (key : DeliveryKey) (a b : ℕ)
    → key_matches messages key a ≡ true
    → key_matches messages key b ≡ true
    → a ≡ b
unfolding key_matches
key_matches_unique messages (DeliveryKey.message_id id) a b = ground arith
key_matches_unique messages (DeliveryKey.seq n) a b = ground arith

pub addressed-same :
    (messages : List MessageRow) (row : LeasedRow) (r s : DeliveryRow)
    → addressed messages row r ≡ true
    → addressed messages row s ≡ true
    → same_delivery r s ≡ true
addressed-same messages row r s = ground (
  arith,
  key_matches_unique messages row.key r.message_seq s.message_seq,
  str_eq_iff r.agent_id row.agent_id,
  str_eq_iff s.agent_id row.agent_id,
  str_eq_iff s.agent_id r.agent_id,
)

pub leased_row-addressed :
    (messages : List MessageRow) (row : LeasedRow) (d : DeliveryRow)
    → leased_row messages row d ≡ true
    → addressed messages row d ≡ true
unfolding leased_row
leased_row-addressed messages row d = ground arith

module _ (db : Db) (row : LeasedRow) (set : DeliveryRow → DeliveryRow) where
  -- Where deliveries have distinct keys, a settlement returns whether the delivery that its key
  -- and agent address is leased under its token on the right side of the expiry; it rewrites the
  -- rows that match, and no other table.
  pub settle_lem :
      Distinct same_delivery db.deliveries
      → settle row set db
        ≡ ok (
          elim (find (addressed db.messages row) db.deliveries) [
            | none ↦ false
            | some d ↦ leased_row db.messages row d
          ],
          record db { deliveries = update (leased_row db.messages row) set db.deliveries },
        )
  unfolding settle update_deliveries
  settle_lem distinct = ground (
    arith,
    count-find same_delivery (leased_row db.messages row) (addressed db.messages row)
        (leased_row-addressed db.messages row) (addressed-same db.messages row) db.deliveries
        distinct,
  )

-- A row as its update leaves it.
same_update-left :
    (set : DeliveryRow → DeliveryRow)
    → Settles set
    → (r s : DeliveryRow) → same_delivery r s ≡ false
    → same_delivery (set r) s ≡ false
same_update-left set v r s h = rw (v.keeps_seq r, v.keeps_agent r) h

same_update-right :
    (set : DeliveryRow → DeliveryRow)
    → Settles set
    → (r s : DeliveryRow) → same_delivery r s ≡ false
    → same_delivery r (set s) ≡ false
same_update-right set v r s h = rw (v.keeps_seq s, v.keeps_agent s) h

-- No settlement gives two deliveries one key.
pub update-Distinct :
    (set : DeliveryRow → DeliveryRow)
    → Settles set
    → (p : DeliveryRow → Bool) (ds : List DeliveryRow) → Distinct same_delivery ds
    → Distinct same_delivery (update p set ds)
update-Distinct set v p =
    Distinct-update same_delivery p set (λ r s _. same_update-right set v r s)
      (λ r s _. same_update-left set v r s)

leased_row-no_token :
    (messages : List MessageRow) (row : LeasedRow) (d : DeliveryRow)
    → d.lease_token ≡ none
    → leased_row messages row d ≡ false
unfolding leased_row
leased_row-no_token messages row d h = ground arith

addressed-set :
    (messages : List MessageRow) (row : LeasedRow) (set : DeliveryRow → DeliveryRow)
    → Settles set
    → (d : DeliveryRow) → addressed messages row (set d) ≡ addressed messages row d
addressed-set messages row set v d = rw (v.keeps_seq d, v.keeps_agent d)

module _ (db after : Db) (row : LeasedRow) (set : DeliveryRow → DeliveryRow) (v : Settles set)
    (distinct : Distinct same_delivery db.deliveries)
    (settled : settle row set db ≡ ok (true, after)) where
  abbrev pub settled_deliveries : List DeliveryRow
  settled_deliveries = update (leased_row db.messages row) set db.deliveries

  pub after-eq : after ≡ record db { deliveries = settled_deliveries }
  after-eq = ground (arith, settle_lem db row set distinct)

  -- The row that the settlement found.
  found :
      (d : DeliveryRow) × (find (addressed db.messages row) db.deliveries ≡ some d)
      × (leased_row db.messages row d ≡ true)
  found = elim (Option-cases (find (addressed db.messages row) db.deliveries)) [
    | inl e ↦ absurd (ground (arith, settle_lem db row set distinct, e))
    | inr (d, e) ↦ (d, e, ground (arith, settle_lem db row set distinct, e))
  ]

  abbrev later : LeaseWindow → ℕ → LeasedRow
  later window now = record row { window = window; now = now }

  -- The row as the settlement leaves it.
  pub found_after :
      (d : DeliveryRow) × (find (addressed db.messages row) settled_deliveries ≡ some (set d))
  found_after =
      let (d, e, hit) = found in
      (
        d,
        find-update (leased_row db.messages row) set (addressed db.messages row)
              (addressed-set db.messages row set v) db.deliveries
            ∙ rw (e, hit) refl,
      )

  pub spent_count :
      (window : LeaseWindow) (now : ℕ)
      → count (leased_row db.messages (later window now)) settled_deliveries ≡ 0
  spent_count window now =
      let (d, e) = found_after in
      count-find same_delivery (leased_row db.messages (later window now))
        (addressed db.messages row) (leased_row-addressed db.messages (later window now))
        (addressed-same db.messages row) settled_deliveries
        (update-Distinct set v (leased_row db.messages row) db.deliveries distinct)
      ∙ rw (e, leased_row-no_token db.messages (later window now) (set d) (v.drops_lease d)) refl

  -- Where deliveries have distinct keys, a settlement that moved its row spends the lease: no
  -- later settlement of the same delivery by the same agent under the same token, of whichever
  -- kind, at whichever time and side of the expiry, moves a row or changes anything.
  pub settle_spent :
      (window : LeaseWindow) (now : ℕ) (again : DeliveryRow → DeliveryRow)
      → settle (record row { window = window; now = now }) again after ≡ ok (false, after)
  unfolding settle update_deliveries
  settle_spent window now again = rw after-eq (
      rw
        (
          spent_count window now,
          update-count_zero (leased_row db.messages (later window now)) again settled_deliveries
              (spent_count window now),
        )
        refl)
