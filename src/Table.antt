-- ===== src/Table.antt =====
-- A table of the database as the list of its rows, in rowid order, with the SQL statements
-- that the program runs on it.
pub mod Laws
use fleetd.Base.{ℕ, zero, suc, Bool, List, [], ◌∷◌, Option, none, some, if◌then◌else◌, ◌||◌, false}

module _ {ℓ} {R : Type ℓ} where
  -- UPDATE … SET f WHERE p.
  unfoldable pub update : (R → Bool) → (R → R) → List R → List R
  update p f [] = []
  update p f (r ∷ rs) = (if p r then f r else r) ∷ update p f rs

  -- The rows that such a statement affects.
  unfoldable pub count : (R → Bool) → List R → ℕ
  count p [] = 0
  count p (r ∷ rs) = let n = count p rs in if p r then suc n else n

  -- SELECT … WHERE p, read by `fetch_optional`.
  unfoldable pub find : (R → Bool) → List R → Option R
  find p [] = none
  find p (r ∷ rs) = if p r then some r else find p rs

  -- SELECT … WHERE p, read by `fetch_all`.
  unfoldable pub select : (R → Bool) → List R → List R
  select p [] = []
  select p (r ∷ rs) = let more = select p rs in if p r then r ∷ more else more

  unfoldable pub insert_by : (R → R → Bool) → R → List R → List R
  insert_by le r [] = r ∷ []
  insert_by le r (s ∷ ss) = if le r s then r ∷ s ∷ ss else s ∷ insert_by le r ss

  -- ORDER BY, with the order of the sort key.
  unfoldable pub order_by : (R → R → Bool) → List R → List R
  unfolding insert_by
  order_by le [] = []
  order_by le (r ∷ rs) = insert_by le r (order_by le rs)

  -- EXISTS (SELECT … WHERE p).
  unfoldable pub any : (R → Bool) → List R → Bool
  any p [] = false
  any p (r ∷ rs) = p r || any p rs
