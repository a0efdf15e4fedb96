-- ===== src/Table/Laws/Keys.antt =====
-- Tables whose rows have keys of their own.
use fleetd.Base.{
  ◌≡◌, refl, Bool, true, false, List, [], ◌∷◌, ◌++◌, none, some, arith, All, if◌then◌else◌,
  Bool-cases, inl, inr, All-append,
}
use fleetd.Table.{update, count, find, select}
use fleetd.Table.Laws.Lookup.{All-update, All-select}

-- No two rows have the same key.
abbrev pub Distinct {ℓ} : {R : Type ℓ} → (R → R → Bool) → List R → Type ℓ
Distinct same [] = Unit
Distinct same (r ∷ rs) = All (λ s. same r s ≡ false) rs × Distinct same rs

module _ {ℓ} {R : Type ℓ} (same : R → R → Bool) where
  -- An update that makes no two keys equal.
  pub Distinct-update :
      (p : R → Bool) (f : R → R)
      → ((r s : R) → p s ≡ true → same r s ≡ false → same r (f s) ≡ false)
      → ((r s : R) → p r ≡ true → same r s ≡ false → same (f r) s ≡ false)
      → (rs : List R) → Distinct same rs
      → Distinct same (update p f rs)
  unfolding update
  Distinct-update p f right left [] d = tt
  Distinct-update p f right left (r ∷ rs) d = (
    All-update p f (λ s h e. right _ s e (front s h)) (λ s h _. front s h) rs d.0,
    Distinct-update p f right left rs d.1,
  )
    where
      front : (s : R) → same r s ≡ false → same (if p r then f r else r) s ≡ false
      front s h = elim (Bool-cases (p r)) [ inl e ↦ rw e (left r s e h) | inr e ↦ rw e h ]

  pub Distinct-append :
      (rs : List R) (s : R)
      → Distinct same rs
      → All (λ r. same r s ≡ false) rs
      → Distinct same (rs ++ s ∷ [])
  Distinct-append [] s d a = (tt, tt)
  Distinct-append (r ∷ rs) s d a =
      (All-append _ rs (s ∷ []) d.0 (a.0, tt), Distinct-append rs s d.1 a.1)

  pub Distinct-concat :
      (rs ss : List R)
      → Distinct same rs
      → Distinct same ss
      → All (λ r. All (λ s. same r s ≡ false) ss) rs
      → Distinct same (rs ++ ss)
  Distinct-concat [] ss d e a = e
  Distinct-concat (r ∷ rs) ss d e a = (All-append _ rs ss d.0 a.0, Distinct-concat rs ss d.1 e a.1)

  pub Distinct-select :
      (p : R → Bool) (rs : List R) → Distinct same rs → Distinct same (select p rs)
  unfolding select
  Distinct-select p [] d = tt
  Distinct-select p (r ∷ rs) d = elim (Bool-cases (p r)) [
    | inl e ↦ rw e (All-select p _ rs d.0, Distinct-select p rs d.1)
    | inr e ↦ rw e (Distinct-select p rs d.1)
  ]

  -- Among rows with distinct keys, a statement that names a key affects the row that a lookup of
  -- the key finds, or none.
  module _ (p k : R → Bool) where
    count-none :
        ((r : R) → p r ≡ true → k r ≡ true)
        → (r : R) → k r ≡ true
        → ((s : R) → k s ≡ true → same r s ≡ true)
        → (rs : List R) → All (λ s. same r s ≡ false) rs
        → count p rs ≡ 0
    unfolding count
    count-none names r e apart [] a = refl
    count-none names r e apart (s ∷ rs) a =
        ground (arith, names s, apart s, count-none names r e apart rs a.1)

    pub count-find :
        ((r : R) → p r ≡ true → k r ≡ true)
        → ((r s : R) → k r ≡ true → k s ≡ true → same r s ≡ true)
        → (rs : List R) → Distinct same rs
        → count p rs ≡ elim (find k rs) [ none ↦ 0 | some r ↦ if p r then 1 else 0 ]
    unfolding count find
    count-find names apart [] d = refl
    count-find names apart (r ∷ rs) d = elim (Bool-cases (k r)) [
      | inl e ↦ ground (arith, count-none names r e (λ s h. apart r s e h) rs d.0)
      | inr e ↦ ground (arith, names r, count-find names apart rs d.1)
    ]
