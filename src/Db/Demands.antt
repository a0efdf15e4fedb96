-- ===== src/Db/Demands.antt =====
-- What must hold of the database for a transaction to commit.
use fleetd.Base.{◌≡◌, refl, subst}
use fleetd.Error.{FleetError, Result, ok, err}
use fleetd.Db.{Db}
use fleetd.Db.Tx.{Tx, ◌>>=◌, bind_ok}
use fleetd.Db.Keeps.{Relation, Keeps}

-- The database after is the database before.
abbrev pub unchanged : Relation
unchanged = record {
  holds = λ db after. after ≡ db;
  same = λ db. refl;
  compose = λ a b c f g. subst (λ x. c ≡ x) f g;
}

pub record Demands (P : Db → Type 0) {A : Type 0} (m : Tx A) : Type 0 where
  pub demanded : (db after : Db) (a : A) → m db ≡ ok (a, after) → P db

-- The transaction fails on this database.
abbrev pub Refuses : {A : Type 0} → Tx A → Db → Type 0
Refuses m db = (e : FleetError) × (m db ≡ err e)

module _ {P : Db → Type 0} where
  -- A first part that demands it.
  pub at_once : {A B : Type 0} {m : Tx A} (f : A → Tx B) → Demands P m → Demands P (m >>= f)
  at_once {m} f d = record {
    demanded = λ db after b h. bind_ok m f db h λ a middle e _. d.demanded db middle a e;
  }

  -- A first part that only reads.
  pub later :
      {A B : Type 0} {m : Tx A} {f : A → Tx B}
      → Keeps unchanged m
      → ((a : A) → Demands P (f a))
      → Demands P (m >>= f)
  later {m} {f} k d = record {
    demanded = λ db after b h.
        bind_ok m f db h
          λ a middle e e'. subst P (k.kept db middle a e) ((d a).demanded middle after b e');
  }

  pub refuses : {A : Type 0} (m : Tx A) (db : Db) → Demands P m → ¬ (P db) → Refuses m db
  refuses {A} m db d absent = go (m db) refl
    where
      go : (r : Result (A × Db)) → m db ≡ r → (e : FleetError) × (r ≡ err e)
      go (ok (a, after)) e = absurd (absent (d.demanded db after a e))
      go (err e) h = (e, refl)
