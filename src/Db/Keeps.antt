-- ===== src/Db/Keeps.antt =====
-- What a transaction does to the database, part by part: a relation that every part keeps is kept
-- by the whole.
use fleetd.Base.{
  ℕ, ◌≡◌, refl, sym, Bool, true, false, String, Option, none, some, arith, subst, if◌then◌else◌,
}
use fleetd.Error.{FleetError, Result, ok, err}
use fleetd.Db.{Db}
use fleetd.Db.Tx.{
  Tx, ◌>>=◌, pure, fail, fail_if, get, put, lift, expect, to_i64, checked_add, run, bind_ok,
  lift-same, to_i64-same, checked_add-same,
}

-- A relation of the database before to the database after.
pub record Relation : Type 1 where
  pub holds : Db → Db → Type 0
  pub same : (db : Db) → holds db db
  pub compose : (a b c : Db) → holds a b → holds b c → holds a c

-- A commit of the transaction is in the relation.
pub record Keeps (r : Relation) {A : Type 0} (m : Tx A) : Type 0 where
  pub kept : (db after : Db) (a : A) → m db ≡ ok (a, after) → r.holds db after

-- The same, of a transaction that may go back to an earlier state of the database.
pub record KeepsFrom (r : Relation) (before : Db) {A : Type 0} (m : Tx A) : Type 0 where
  pub kept :
      (db after : Db) (a : A) → r.holds before db → m db ≡ ok (a, after) → r.holds before after

-- The transaction can return the value.
pub record Returns {A : Type 0} (m : Tx A) (a : A) : Type 0 where
  pub before : Db
  pub after : Db
  pub returned : m before ≡ ok (a, after)

pub same_db : (r : Relation) (db after : Db) → after ≡ db → r.holds db after
same_db r db after e = subst (λ x. r.holds db x) (sym e) (r.same db)

module _ {r : Relation} where
  pub keeps :
      {A : Type 0} (m : Tx A)
      → ((db after : Db) (a : A) → m db ≡ ok (a, after) → after ≡ db)
      → Keeps r m
  keeps m h = record { kept = λ db after a e. same_db r db after (h db after a e) }

  pub bind_result :
      {A B : Type 0} {m : Tx A} {f : A → Tx B}
      → Keeps r m
      → ((a : A) → Returns m a → Keeps r (f a))
      → Keeps r (m >>= f)
  bind_result {m} {f} k l = record {
    kept = λ db after b h. bind_ok m f db h λ a middle e e'.
        r.compose db middle after (k.kept db middle a e)
          ((l a (record { before = db; after = middle; returned = e })).kept middle after b e');
  }

  pub bind :
      {A B : Type 0} {m : Tx A} {f : A → Tx B}
      → Keeps r m
      → ((a : A) → Keeps r (f a))
      → Keeps r (m >>= f)
  bind k l = bind_result k λ a _. l a

  pub pures : {A : Type 0} (a : A) → Keeps r (pure a)
  pures a = keeps (pure a) λ db after b e. ground arith

  pub fails : {A : Type 0} (e : FleetError) → Keeps r (fail {A = A} e)
  fails e = keeps (fail e) λ db after b h. absurd (ground arith)

  pub gets : Keeps r get
  gets = keeps get λ db after b h. ground arith

  pub lifts : {A : Type 0} (c : Result A) → Keeps r (lift c)
  lifts c = keeps (lift c) λ db after b h. lift-same c db h

  pub expects : {A : Type 0} (o : Option A) (e : FleetError) → Keeps r (expect o e)
  expects none e = keeps (expect none e) λ db after b h. absurd (ground arith)
  expects (some a) e = keeps (expect (some a) e) λ db after b h. ground arith

  pub guards : (b : Bool) (e : FleetError) → Keeps r (fail_if b e)
  guards true e = keeps (fail_if true e) λ db after b h. absurd (ground arith)
  guards false e = keeps (fail_if false e) λ db after b h. ground arith

  pub narrows : (message : String) (n : ℕ) → Keeps r (to_i64 message n)
  narrows message n = keeps (to_i64 message n) λ db after b h. (to_i64-same message n db h).1

  pub adds : (message : String) (a b : ℕ) → Keeps r (checked_add message a b)
  adds message a b =
      keeps (checked_add message a b) λ db after n h. (checked_add-same message a b db h).1

  pub either :
      {A : Type 0} (b : Bool) {m n : Tx A} → Keeps r m → Keeps r n → Keeps r (if b then m else n)
  either true k l = k
  either false k l = l

  pub option :
      {A B : Type 0} (o : Option A) {n : Tx B} {s : A → Tx B}
      → Keeps r n
      → ((a : A) → Keeps r (s a))
      → Keeps r (elim o [ none ↦ n | some a ↦ s a ])
  option none k l = k
  option (some a) k l = l a

  -- A transaction that may go back to where a part of it began.
  pub begins :
      {B : Type 0} {f : Db → Tx B}
      → ((before : Db) → KeepsFrom r before (f before))
      → Keeps r (get >>= f)
  begins k = record { kept = λ db after b h. (k db).kept db after b (r.same db) h }

  pub from_keeps : {A : Type 0} {before : Db} {m : Tx A} → Keeps r m → KeepsFrom r before m
  from_keeps {before} k = record {
    kept = λ db after a e e'. r.compose before db after e (k.kept db after a e');
  }

  pub from_bind :
      {A B : Type 0} {before : Db} {m : Tx A} {f : A → Tx B}
      → KeepsFrom r before m
      → ((a : A) → KeepsFrom r before (f a))
      → KeepsFrom r before (m >>= f)
  from_bind {m} {f} k l = record {
    kept = λ db after b s h.
        bind_ok m f db h λ a middle e e'. (l a).kept middle after b (k.kept db middle a s e) e';
  }

  pub from_either :
      {A : Type 0} {before : Db} (b : Bool) {m n : Tx A}
      → KeepsFrom r before m
      → KeepsFrom r before n
      → KeepsFrom r before (if b then m else n)
  from_either true k l = k
  from_either false k l = l

  pub goes_back : (before : Db) → KeepsFrom r before (put before)
  goes_back before = record { kept = λ db after a s e. same_db r before after (ground arith) }

  pub run_keeps : {A : Type 0} (m : Tx A) (db : Db) → Keeps r m → r.holds db (run m db).1
  unfolding run
  run_keeps {A} m db k = go (m db) refl
    where
      go :
          (x : Result (A × Db))
          → m db ≡ x
          → r.holds db
              (elim x as (λ _. Result A × Db) [
                | ok (a, after) ↦ (ok a, after)
                | err e ↦ (err e, db)
              ]).1
      go (ok (a, after)) e = k.kept db after a e
      go (err e) h = r.same db

-- What the parts of a transaction that read and check keep, and how the parts are put together.
pub ruleset keeping =
    (bind, pures, fails, gets, lifts, expects, guards, narrows, adds, either, option)

pub ruleset going_back = (begins, from_keeps, from_bind, from_either, goes_back)
