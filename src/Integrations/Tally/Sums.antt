-- ===== src/Integrations/Tally/Sums.antt =====
-- The totals of the tables, and their order.
use mytrackr_backend.Prelude.{
  ℕ, ◌+◌, ◌≤◌, ◌≡◌, refl, Bool, List, [], ◌∷◌, arith, leb, if_both, Bool-cases, inl, inr, All,
  All-map,
}
use mytrackr_backend.Integrations.Tally.{Group, tally, insert_group, by_revenue}

module _ {K : Type 0} where
  -- The revenue and the quantity of all rows
  abbrev pub total : (Group K → ℕ) → List (Group K) → ℕ
  total f [] = 0
  total f (g ∷ gs) = f g + total f gs

  pub total_revenue-tally :
      (same : K → K → Bool) (k : K) (r n : ℕ) (gs : List (Group K))
      → total (λ g. g.revenue) (tally same k r n gs) ≡ total (λ g. g.revenue) gs + r
  unfolding tally
  total_revenue-tally same k r n [] = omega arith
  total_revenue-tally same k r n (g ∷ gs) = elim (Bool-cases (same g.key k)) [
    | inl e ↦ rw e (omega arith)
    | inr e ↦ rw e (omega (arith, total_revenue-tally same k r n gs))
  ]

  pub total_quantity-tally :
      (same : K → K → Bool) (k : K) (r n : ℕ) (gs : List (Group K))
      → total (λ g. g.quantity) (tally same k r n gs) ≡ total (λ g. g.quantity) gs + n
  unfolding tally
  total_quantity-tally same k r n [] = omega arith
  total_quantity-tally same k r n (g ∷ gs) = elim (Bool-cases (same g.key k)) [
    | inl e ↦ rw e (omega arith)
    | inr e ↦ rw e (omega (arith, total_quantity-tally same k r n gs))
  ]

  total-insert_group :
      (f : Group K → ℕ) (g : Group K) (gs : List (Group K))
      → total f (insert_group g gs) ≡ f g + total f gs
  unfolding insert_group
  total-insert_group f g [] = refl
  total-insert_group f g (h ∷ hs) =
      if_both (λ ys. total f ys ≡ f g + total f (h ∷ hs)) (leb h.revenue g.revenue) _ _ (λ _. refl)
        (λ _. omega (arith, total-insert_group f g hs))

  pub total-by_revenue :
      (f : Group K → ℕ) (gs : List (Group K)) → total f (by_revenue gs) ≡ total f gs
  unfolding by_revenue
  total-by_revenue f [] = refl
  total-by_revenue f (g ∷ gs) =
      omega (arith, total-insert_group f g (by_revenue gs), total-by_revenue f gs)

  -- The rows stand in falling order of revenue.
  abbrev pub Falls : List (Group K) → Type 0
  Falls [] = Unit
  Falls (g ∷ gs) = All (λ h. h.revenue ≤ g.revenue) gs × Falls gs

  All-insert_group :
      (P : Group K → Type 0) (g : Group K) (gs : List (Group K))
      → P g
      → All P gs
      → All P (insert_group g gs)
  unfolding insert_group
  All-insert_group P g [] hg h = (hg, tt)
  All-insert_group P g (h ∷ hs) hg (hh, rest) =
      if_both (All P) (leb h.revenue g.revenue) _ _ (λ _. (hg, (hh, rest)))
        (λ _. (hh, All-insert_group P g hs hg rest))

  insert_group-Falls : (g : Group K) (gs : List (Group K)) → Falls gs → Falls (insert_group g gs)
  unfolding insert_group
  insert_group-Falls g [] h = (tt, tt)
  insert_group-Falls g (h ∷ hs) (below, rest) =
      if_both Falls (leb h.revenue g.revenue) _ _
        (λ e.
          let first : h.revenue ≤ g.revenue = ground arith in
          ((first, All-map (λ x (p : x.revenue ≤ h.revenue). omega arith) hs below), (below, rest)))
        (λ e. (
          All-insert_group (λ x. x.revenue ≤ h.revenue) g hs (ground arith) below,
          insert_group-Falls g hs rest,
        ))

  pub by_revenue-Falls : (gs : List (Group K)) → Falls (by_revenue gs)
  unfolding by_revenue
  by_revenue-Falls [] = tt
  by_revenue-Falls (g ∷ gs) = insert_group-Falls g (by_revenue gs) (by_revenue-Falls gs)
