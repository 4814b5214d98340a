-- ===== src/Reports/Ledger.antt =====
-- The rows that the statements select, and sums over them.
use mathlib.Core.List.{Permᴰ}
use mytrackr_backend.Prelude.{
  ℕ, ◌≡◌, ap, sym, ◌∙◌, refl, inl, inr, Bool-cases, Bool, false, ◌&&◌, not, none, some, List, [],
  ◌∷◌, ◌==◌, leb, keep, is_some, if◌then◌else◌,
}
use mytrackr_backend.Prelude.Int.{ℤ, pos, ◌+ℤ◌, sum_ℤ, int_laws}
use mytrackr_backend.Reports.Treatment.{Transaction}

-- tx.businessId = :businessId AND tx.date BETWEEN :startDate AND :endDate; the query builder leaves
-- out rows that are soft-deleted.
abbrev pub in_period : (business start end_at : ℕ) → Transaction → Bool
in_period business start end_at tx =
    not (is_some tx.deleted_at)
    && (elim tx.business [ none ↦ false | some b ↦ b == business ]
        && (leb start tx.date && leb tx.date end_at))

swap_terms : (a b c : ℤ) → a +ℤ (b +ℤ c) ≡ b +ℤ (a +ℤ c)
swap_terms a b c = omega int_laws

-- A sum does not depend on the order of its rows.
pub sum_ℤ-perm : {A : Type 0} (f : A → ℤ) {xs ys : List A} → Permᴰ xs ys → sum_ℤ f xs ≡ sum_ℤ f ys
sum_ℤ-perm f Permᴰ.nil = refl
sum_ℤ-perm f (Permᴰ.cons e p) = rw (e, sum_ℤ-perm f p) refl
sum_ℤ-perm f (Permᴰ.swap e k) = rw (e, k) (swap_terms _ _ _)
sum_ℤ-perm f (Permᴰ.trans p q) = sum_ℤ-perm f p ∙ sum_ℤ-perm f q

pub +ℤ_assoc : (a b c : ℤ) → a +ℤ b +ℤ c ≡ a +ℤ (b +ℤ c)
+ℤ_assoc a b c = omega int_laws

pub +ℤ_zero : (a : ℤ) → pos 0 +ℤ a ≡ a
+ℤ_zero a = omega int_laws

-- The sum over the rows that pass a test
abbrev pub where_only : {A : Type 0} → (A → Bool) → (A → ℤ) → A → ℤ
where_only p f x = if p x then f x else pos 0

pub sum_ℤ-keep :
    {A : Type 0} (f : A → ℤ) (p : A → Bool) (xs : List A)
    → sum_ℤ f (keep p xs) ≡ sum_ℤ (where_only p f) xs
sum_ℤ-keep f p [] = refl
sum_ℤ-keep f p (x ∷ xs) = elim (Bool-cases (p x)) [
  | inl kept ↦ rw kept (ap (λ s. f x +ℤ s) (sum_ℤ-keep f p xs))
  | inr left ↦ rw left (sum_ℤ-keep f p xs ∙ sym (+ℤ_zero (sum_ℤ (where_only p f) xs)))
]
