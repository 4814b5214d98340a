-- ===== src/Integrations/Tally.antt =====
-- src/integrations/services/integrations.service.ts: the tables of revenue by a key, each a map that
-- keeps its keys in the order of their first use.
pub mod Sums
use mytrackr_backend.Prelude.{ℕ, ◌+◌, Bool, List, [], ◌∷◌, leb, if◌then◌else◌}

-- A row: its key, with the amounts and the pieces or orders counted so far
pub record Group (K : Type 0) : Type 0 where
  pub key : K
  pub revenue : ℕ
  pub quantity : ℕ

module _ {K : Type 0} where
  -- rows.get(key) || a new row, with the amounts added
  unfoldable pub tally :
      (K → K → Bool) → K → (revenue quantity : ℕ) → List (Group K) → List (Group K)
  tally same k r n [] = record { key = k; revenue = r; quantity = n } ∷ []
  tally same k r n (g ∷ gs) =
      let rest = tally same k r n gs in
      if same g.key k
      then (record g { revenue = g.revenue + r; quantity = g.quantity + n }) ∷ gs
      else g ∷ rest

  -- sort((a, b) => b.revenue - a.revenue), which keeps the order of equal rows
  unfoldable pub insert_group : Group K → List (Group K) → List (Group K)
  insert_group g [] = g ∷ []
  insert_group g (h ∷ hs) =
      let rest = insert_group g hs in if leb h.revenue g.revenue then g ∷ h ∷ hs else h ∷ rest

  unfoldable pub by_revenue : List (Group K) → List (Group K)
  by_revenue [] = []
  by_revenue (g ∷ gs) = insert_group g (by_revenue gs)
