-- ===== src/Table/Laws/Rows.antt =====
-- What holds of every row of a statement's result.
use fleetd.Base.{
  ◌≡◌, refl, Bool, true, false, List, [], ◌∷◌, some, arith, All, Bool-cases, inl, inr, All-map,
  take, ◌∙◌, ℕ, zero, suc,
}
use fleetd.Table.{find, insert_by, order_by}
use fleetd.Table.Laws.Keys.{Distinct}

module _ {ℓ} {R : Type ℓ} where
  pub All-insert_by {κ} :
      (P : R → Type κ) (le : R → R → Bool) (r : R) (rs : List R)
      → P r
      → All P rs
      → All P (insert_by le r rs)
  unfolding insert_by
  All-insert_by P le r [] h a = (h, tt)
  All-insert_by P le r (s ∷ rs) h a = elim (Bool-cases (le r s)) [
    | inl e ↦ rw e (h, a)
    | inr e ↦ rw e (a.0, All-insert_by P le r rs h a.1)
  ]

  pub All-order_by {κ} :
      (P : R → Type κ) (le : R → R → Bool) (rs : List R) → All P rs → All P (order_by le rs)
  unfolding order_by
  All-order_by P le [] a = tt
  All-order_by P le (r ∷ rs) a =
      All-insert_by P le r (order_by le rs) a.0 (All-order_by P le rs a.1)

  pub All-take {κ} : (P : R → Type κ) (n : ℕ) (rs : List R) → All P rs → All P (take n rs)
  All-take P zero rs a = tt
  All-take P (suc n) [] a = tt
  All-take P (suc n) (r ∷ rs) a = (a.0, All-take P n rs a.1)

  pub All-both {κ μ} :
      (P : R → Type κ) (Q : R → Type μ) (rs : List R)
      → All P rs
      → All Q rs
      → All (λ r. P r × Q r) rs
  All-both P Q [] a b = tt
  All-both P Q (r ∷ rs) a b = ((a.0, b.0), All-both P Q rs a.1 b.1)

  pub All-every {κ} : (P : R → Type κ) → ((r : R) → P r) → (rs : List R) → All P rs
  All-every P h [] = tt
  All-every P h (r ∷ rs) = (h r, All-every P h rs)

  -- Rows with one key are one row.
  pub Distinct-equal :
      (same : R → R → Bool)
      → ((r s : R) → same r s ≡ same s r)
      → (rs : List R) → Distinct same rs
      → All (λ r. All (λ s. same r s ≡ true → r ≡ s) rs) rs
  Distinct-equal same symmetric [] d = tt
  Distinct-equal same symmetric (r ∷ rs) d = (
    ((λ _. refl), All-map (λ s f t. absurd (clash s f t)) rs d.0),
    All-map (λ s (f, a). ((λ t. absurd (clash s f (symmetric r s ∙ t))), a)) rs
        (All-both _ _ rs d.0 (Distinct-equal same symmetric rs d.1)),
  )
    where
      clash : (s : R) → same r s ≡ false → same r s ≡ true → ⊥
      clash s f t = ground arith

  -- A row is what a lookup of its key finds.
  pub Distinct-find :
      (same : R → R → Bool)
      → ((r : R) → same r r ≡ true)
      → ((r s : R) → same r s ≡ same s r)
      → (rs : List R) → Distinct same rs
      → All (λ r. find (same r) rs ≡ some r) rs
  unfolding find
  Distinct-find same reflexive symmetric [] d = tt
  Distinct-find same reflexive symmetric (r ∷ rs) d = (
    rw (reflexive r) refl,
    All-map (λ s (f, e). rw (symmetric s r, f) e) rs
        (All-both _ _ rs d.0 (Distinct-find same reflexive symmetric rs d.1)),
  )
