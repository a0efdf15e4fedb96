-- ===== src/Db/Tx.antt =====
-- A transaction: it reads and changes the database, or fails. Dropping it uncommitted rolls back.
use fleetd.Base.{
  ℕ, ◌+◌, ◌≡◌, refl, ◌∙◌, ap, Bool, true, false, String, Option, none, some, arith, leb,
  if◌then◌else◌,
}
use fleetd.Error.{FleetError, invalid, Result, ok, err}
use fleetd.Db.{Db, i64_max}

abbrev pub Tx : Type 0 → Type 0
Tx A = Db → Result (A × Db)

infixl 5 ◌>>=◌ ◌>>◌
abbrev pub ◌>>=◌ : {A B : Type 0} → Tx A → (A → Tx B) → Tx B
◌>>=◌ m f db = elim (m db) [ ok (a, db') ↦ f a db' | err e ↦ err e ]

abbrev pub ◌>>◌ : {B : Type 0} → Tx (Unit {0}) → Tx B → Tx B
m >> k = m >>= λ _. k

abbrev pub pure : {A : Type 0} → A → Tx A
pure a db = ok (a, db)

abbrev pub fail : {A : Type 0} → FleetError → Tx A
fail e db = err e

abbrev pub get : Tx Db
get db = ok (db, db)

abbrev pub put : Db → Tx (Unit {0})
put db' db = ok (tt, db')

-- A check that reads no table.
abbrev pub lift : {A : Type 0} → Result A → Tx A
lift (ok a) db = ok (a, db)
lift (err e) db = err e

-- `fetch_optional(…).ok_or_else(…)`.
abbrev pub expect : {A : Type 0} → Option A → FleetError → Tx A
expect none e db = err e
expect (some a) e db = ok (a, db)

abbrev pub fail_if : Bool → FleetError → Tx (Unit {0})
fail_if true e db = err e
fail_if false e db = ok (tt, db)

-- `begin_immediate`, the body, `commit`: the database after the call, and the call's result.
unfoldable pub run : {A : Type 0} → Tx A → Db → Result A × Db
run m db = elim (m db) [ ok (a, db') ↦ (ok a, db') | err e ↦ (err e, db) ]

-- `i64::try_from(value)`.
unfoldable pub to_i64 : String → ℕ → Tx ℕ
to_i64 message n = if leb n i64_max then pure n else fail (invalid message)

-- `a.checked_add(b)` on `i64`.
unfoldable pub checked_add : String → ℕ → ℕ → Tx ℕ
checked_add message a b = if leb (a + b) i64_max then pure (a + b) else fail (invalid message)

-- Two successes in a row.
pub bind-ok :
    {A B : Type 0} (m : Tx A) (n : A → Tx B) (db : Db) {a : A} {middle : Db} {r : Result (B × Db)}
    → m db ≡ ok (a, middle)
    → n a middle ≡ r
    → (m >>= n) db ≡ r
bind-ok {A} {B} m n db e k =
    ap (λ x. elim x as (λ _. Result (B × Db)) [ ok (a, db') ↦ n a db' | err e ↦ err e ]) e ∙ k

pub then-ok :
    {B : Type 0} (m : Tx (Unit {0})) (n : Tx B) (db : Db) {middle : Db} {r : Result (B × Db)}
    → m db ≡ ok (tt, middle)
    → n middle ≡ r
    → (m >> n) db ≡ r
then-ok m n db e k = bind-ok m (λ _. n) db e k

-- A successful bind is two successes.
pub >>=-eq-ok :
    {A B : Type 0} (m : Tx A) (f : A → Tx B) (db : Db) {b : B} {db'' : Db}
    → (m >>= f) db ≡ ok (b, db'')
    → (a : A) × (db' : Db) × (m db ≡ ok (a, db')) × (f a db' ≡ ok (b, db''))
>>=-eq-ok {A} {B} m f db {b} {db''} h = go (m db) refl h
  where
    go :
        (r : Result (A × Db))
        → m db ≡ r
        → elim r as (λ _. Result (B × Db)) [ ok (a, db') ↦ f a db' | err e ↦ err e ] ≡ ok (b, db'')
        → (a : A) × (db' : Db) × (m db ≡ ok (a, db')) × (f a db' ≡ ok (b, db''))
    go (ok (a, db')) e k = (a, db', e, k)
    go (err x) e k = absurd (ground arith)

-- The same, for a proof that goes on with the parts.
pub bind_ok {ℓ} :
    {A B : Type 0} {C : Type ℓ} (m : Tx A) (f : A → Tx B) (db : Db) {b : B} {db'' : Db}
    → (m >>= f) db ≡ ok (b, db'')
    → ((a : A) (db' : Db) → m db ≡ ok (a, db') → f a db' ≡ ok (b, db'') → C)
    → C
bind_ok m f db h k = let (a, db', e, e') = >>=-eq-ok m f db h in k a db' e e'

-- A bind whose first part returns goes on with what it returns.
pub bind_run :
    {A B : Type 0} (m : Tx A) (f : A → Tx B) (db : Db) {a : A} {middle : Db} {r : Result (B × Db)}
    → m db ≡ ok (a, middle)
    → f a middle ≡ r
    → (m >>= f) db ≡ r
bind_run m f db e k = ap (λ x. elim x [ ok (a, db') ↦ f a db' | err x ↦ err x ]) e ∙ k

-- Checks and conversions that succeed leave the database as it was.
pub lift-same :
    {A : Type 0} (r : Result A) (db : Db) {a : A} {after : Db}
    → lift r db ≡ ok (a, after)
    → after ≡ db
lift-same (ok a) db h = ground arith
lift-same (err e) db h = ground arith

pub to_i64-same :
    (message : String) (n : ℕ) (db : Db) {m : ℕ} {after : Db}
    → to_i64 message n db ≡ ok (m, after)
    → (m ≡ n) × (after ≡ db)
unfolding to_i64
to_i64-same message n db h = ground arith

pub checked_add-same :
    (message : String) (a b : ℕ) (db : Db) {n : ℕ} {after : Db}
    → checked_add message a b db ≡ ok (n, after)
    → (n ≡ a + b) × (after ≡ db)
unfolding checked_add
checked_add-same message a b db h = ground arith
