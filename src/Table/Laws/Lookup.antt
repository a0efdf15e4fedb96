-- ===== src/Table/Laws/Lookup.antt =====
-- Reading a table after a statement has changed it: lookups, updates and selections.
use mathlib.Core.Option
use fleetd.Base.{
  ◌≡◌, refl, Bool, true, false, List, [], ◌∷◌, ◌++◌, none, some, arith, All, if◌then◌else◌,
  Bool-cases, inl, inr, subst,
}
use fleetd.Table.{update, count, find, select}

module _ {ℓ} {R : Type ℓ} (p : R → Bool) (f : R → R) where
  abbrev pub changed : R → R
  changed r = if p r then f r else r

  -- An update that keeps what `k` tests is seen by a lookup of `k`, applied to the row it finds.
  pub find-update :
      (k : R → Bool)
      → ((r : R) → k (f r) ≡ k r)
      → (rs : List R) → find k (update p f rs) ≡ Option.map changed (find k rs)
  unfolding find update
  find-update k same [] = refl
  find-update k same (r ∷ rs) = ground (arith, same r, find-update k same rs)

  pub All-update {κ μ} :
      {P : R → Type κ} {Q : R → Type μ}
      → ((r : R) → P r → p r ≡ true → Q (f r))
      → ((r : R) → P r → p r ≡ false → Q r)
      → (rs : List R) → All P rs
      → All Q (update p f rs)
  unfolding update
  All-update hit miss [] h = tt
  All-update {Q = Q} hit miss (r ∷ rs) h = (head, All-update hit miss rs h.1)
    where
      head : Q (if p r then f r else r)
      head = elim (Bool-cases (p r)) [ inl e ↦ rw e (hit r h.0 e) | inr e ↦ rw e (miss r h.0 e) ]

  -- An update that affects no row changes nothing.
  pub update-count_zero : (rs : List R) → count p rs ≡ 0 → update p f rs ≡ rs
  unfolding update count
  update-count_zero [] h = refl
  update-count_zero (r ∷ rs) h = ground (arith, update-count_zero rs)

module _ {ℓ} {R : Type ℓ} (p : R → Bool) where
  -- A lookup finds a row that passes its test.
  pub find-holds : (rs : List R) (r : R) → find p rs ≡ some r → p r ≡ true
  unfolding find
  find-holds [] r h = ground arith
  find-holds (s ∷ rs) r h = ground (arith, find-holds rs r)

  pub All-find {κ} : (P : R → Type κ) (rs : List R) (r : R) → All P rs → find p rs ≡ some r → P r
  unfolding find
  All-find P [] r a h = absurd (ground arith)
  All-find P (s ∷ rs) r a h = elim (Bool-cases (p s)) [
    | inl e ↦ (let same : s ≡ r = ground arith in subst P same a.0)
    | inr e ↦ All-find P rs r a.1 (rw e at h)
  ]

  pub All-select {κ} : (P : R → Type κ) (rs : List R) → All P rs → All P (select p rs)
  unfolding select
  All-select P [] a = tt
  All-select P (r ∷ rs) a = elim (Bool-cases (p r)) [
    | inl e ↦ rw e (a.0, All-select P rs a.1)
    | inr e ↦ rw e (All-select P rs a.1)
  ]

  -- What a selection returns passes its test.
  pub select-holds : (rs : List R) → All (λ r. p r ≡ true) (select p rs)
  unfolding select
  select-holds [] = tt
  select-holds (r ∷ rs) = elim (Bool-cases (p r)) [
    | inl e ↦ rw e (e, select-holds rs)
    | inr e ↦ rw e (select-holds rs)
  ]

  pub find-append : (rs ss : List R) → find p rs ≡ none → find p (rs ++ ss) ≡ find p ss
  unfolding find
  find-append [] ss h = refl
  find-append (r ∷ rs) ss h = ground (arith, find-append rs ss)

  pub find-append_some : (rs ss : List R) (r : R) → find p rs ≡ some r → find p (rs ++ ss) ≡ some r
  unfolding find
  find-append_some [] ss r h = absurd (ground arith)
  find-append_some (s ∷ rs) ss r h = ground (arith, find-append_some rs ss r)

  pub find-none : (rs : List R) → All (λ r. p r ≡ false) rs → find p rs ≡ none
  unfolding find
  find-none [] a = refl
  find-none (r ∷ rs) a = ground (arith, find-none rs a.1)
