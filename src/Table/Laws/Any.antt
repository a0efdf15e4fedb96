-- ===== src/Table/Laws/Any.antt =====
-- Whether some row passes a test, and statements that affect no row.
use fleetd.Base.{
  ◌≡◌, refl, Bool, true, false, List, [], ◌∷◌, ◌++◌, none, some, arith, All, Bool-cases, inl, inr,
  All-map, ◌&&◌, ◌||◌, ◌≢◌,
}
use fleetd.Table.{update, count, find, select, insert_by, order_by, any}
use fleetd.Table.Laws.Rows.{All-both, All-every}

module _ {ℓ} {R : Type ℓ} where
  pub any-select : (h p : R → Bool) (rs : List R) → any h (select p rs) ≡ any (λ r. p r && h r) rs
  unfolding any select
  any-select h p [] = refl
  any-select h p (r ∷ rs) = ground (arith, any-select h p rs)

  any-insert_by :
      (h : R → Bool) (le : R → R → Bool) (r : R) (rs : List R)
      → any h (insert_by le r rs) ≡ (h r || any h rs)
  unfolding any insert_by
  any-insert_by h le r [] = refl
  any-insert_by h le r (s ∷ rs) = ground (arith, any-insert_by h le r rs)

  pub any-order_by :
      (h : R → Bool) (le : R → R → Bool) (rs : List R) → any h (order_by le rs) ≡ any h rs
  unfolding any order_by
  any-order_by h le [] = refl
  any-order_by h le (r ∷ rs) =
      ground (arith, any-insert_by h le r (order_by le rs), any-order_by h le rs)

  -- A row that is related to itself is related to some row of its table.
  pub any_self :
      (h : R → R → Bool) (rs : List R) → All (λ r. h r r ≡ true → any (λ s. h s r) rs ≡ true) rs
  unfolding any
  any_self h [] = tt
  any_self h (r ∷ rs) =
      ((λ e. rw e refl), All-map (λ s k e. ground (arith, k e)) rs (any_self h rs))

  pub any_mono :
      (g h : R → Bool) (rs : List R)
      → ((r : R) → g r ≡ true → h r ≡ true)
      → any g rs ≡ true
      → any h rs ≡ true
  unfolding any
  any_mono g h [] k e = ground arith
  any_mono g h (r ∷ rs) k e = ground (arith, k r, any_mono g h rs k)

  -- What holds of every row, and makes a passing row prove a claim, proves the claim.
  pub any-elim {κ μ} :
      (P : R → Type κ) (C : Type μ) (h : R → Bool) (rs : List R)
      → All P rs
      → any h rs ≡ true
      → ((r : R) → P r → h r ≡ true → C)
      → C
  unfolding any
  any-elim P C h [] a e k = absurd (ground arith)
  any-elim P C h (r ∷ rs) a e k = elim (Bool-cases (h r)) [
    | inl hit ↦ k r a.0 hit
    | inr miss ↦ any-elim P C h rs a.1 (ground arith) k
  ]

  pub find-some :
      (k p : R → Bool) (rs : List R) (r : R) → find k rs ≡ some r → p r ≡ true → find p rs ≢ none
  unfolding find
  find-some k p [] r e h = ground arith
  find-some k p (s ∷ rs) r e h = ground (arith, find-some k p rs r)

module _ {ℓ} {R : Type ℓ} where
  -- A statement that affects no row.
  pub count-zero_All : (p : R → Bool) (rs : List R) → count p rs ≡ 0 → All (λ r. p r ≡ false) rs
  unfolding count
  count-zero_All p [] h = tt
  count-zero_All p (r ∷ rs) h = (ground arith, count-zero_All p rs (ground arith))

  pub update-never : (f : R → R) (rs : List R) → update (λ _. false) f rs ≡ rs
  unfolding update
  update-never f [] = refl
  update-never f (r ∷ rs) = ground (arith, update-never f rs)

  pub any-none : (p : R → Bool) (rs : List R) → any p rs ≡ false → All (λ r. p r ≡ false) rs
  unfolding any
  any-none p [] h = tt
  any-none p (r ∷ rs) h = (ground arith, any-none p rs (ground arith))

  pub All-swap {κ μ} :
      {S : Type μ} (P : R → S → Type κ) (rs : List R) (ss : List S)
      → All (λ s. All (λ r. P r s) rs) ss
      → All (λ r. All (λ s. P r s) ss) rs
  All-swap P rs [] a = All-every _ (λ _. tt) rs
  All-swap P rs (s ∷ ss) a = All-both _ _ rs a.0 (All-swap P rs ss a.1)

  pub update-same :
      (p q : R → Bool) (f : R → R)
      → ((r : R) → p r ≡ q r)
      → (rs : List R) → update p f rs ≡ update q f rs
  unfolding update
  update-same p q f h [] = refl
  update-same p q f h (r ∷ rs) = ground (arith, h r, update-same p q f h rs)

  pub find-same : (p q : R → Bool) → ((r : R) → p r ≡ q r) → (rs : List R) → find p rs ≡ find q rs
  unfolding find
  find-same p q same [] = refl
  find-same p q same (r ∷ rs) = ground (arith, same r, find-same p q same rs)

-- Whether some row passes, after a statement.
module _ {ℓ} {R : Type ℓ} where
  pub any-update :
      (h p : R → Bool) (f : R → R)
      → ((r : R) → h r ≡ true → p r ≡ false)
      → (rs : List R) → any h rs ≡ true
      → any h (update p f rs) ≡ true
  unfolding any update
  any-update h p f apart [] e = ground arith
  any-update h p f apart (r ∷ rs) e = ground (arith, apart r, any-update h p f apart rs)

  pub any-update_within :
      (h p : R → Bool) (f : R → R) (rs : List R)
      → All (λ r. h r ≡ true → p r ≡ false) rs
      → any h rs ≡ true
      → any h (update p f rs) ≡ true
  unfolding any update
  any-update_within h p f [] a e = ground arith
  any-update_within h p f (r ∷ rs) a e = ground (arith, a.0, any-update_within h p f rs a.1)

  pub any-update_hit :
      (h p : R → Bool) (f : R → R)
      → ((r : R) → p r ≡ true → h (f r) ≡ true)
      → (rs : List R) → count p rs ≢ 0
      → any h (update p f rs) ≡ true
  unfolding any update count
  any-update_hit h p f hits [] e = ground arith
  any-update_hit h p f hits (r ∷ rs) e = ground (arith, hits r, any-update_hit h p f hits rs)

  pub any-append : (h : R → Bool) (rs ss : List R) → any h (rs ++ ss) ≡ (any h rs || any h ss)
  unfolding any
  any-append h [] ss = refl
  any-append h (r ∷ rs) ss = ground (arith, any-append h rs ss)

  -- A statement that affects some row has a row to affect.
  pub any-count : (p : R → Bool) (rs : List R) → count p rs ≢ 0 → any p rs ≡ true
  unfolding any count
  any-count p [] e = ground arith
  any-count p (r ∷ rs) e = ground (arith, any-count p rs)
