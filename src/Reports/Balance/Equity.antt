-- ===== src/Reports/Balance/Equity.antt =====
-- What the balance sheet counts, and its inventory reminder.
use mathlib.Core.List.{Memᴰ}
use mytrackr_backend.Prelude.{
  ℕ, ◌≤◌, ◌≡◌, ap, ◌∙◌, refl, some, Bool, not, ◌&&◌, ◌==◌, keep, List, [], ◌∷◌, arith, ltb, inl,
  inr, ◌⊎◌, Bool-cases, All, if◌then◌else◌,
}
use mytrackr_backend.Prelude.Int.{ℤ, pos, ◌+ℤ◌, ◌-ℤ◌, sum_ℤ, -ℤ_parts, int_laws}
use mytrackr_backend.Reports.Balance.{
  Liability, is_active, get_asset_display_value, Asset, Tables, calculate_balance_sheet,
  latest_from, get_latest_inventory_update,
}

+ℤ_comm : (a b : ℤ) → a +ℤ b ≡ b +ℤ a
+ℤ_comm a b = omega int_laws

sum_ℤ-keep_cons :
    {A : Type 0} (f : A → ℤ) (p : A → Bool) (x : A) (xs : List A)
    → sum_ℤ f (keep p (x ∷ xs)) ≡ sum_ℤ f (keep p xs) +ℤ (if p x then f x else pos 0)
sum_ℤ-keep_cons f p x xs = elim (Bool-cases (p x)) [
  | inl kept ↦ rw kept (+ℤ_comm (f x) (sum_ℤ f (keep p xs)))
  | inr left ↦ rw left (omega int_laws)
]

+ℤ_more : (a b d : ℤ) → a +ℤ (b +ℤ d) ≡ (a +ℤ b) +ℤ d
+ℤ_more a b d = omega int_laws

equity_more : (a b w d o : ℤ) → (a +ℤ (b +ℤ d)) -ℤ (w +ℤ o) ≡ ((a +ℤ b) -ℤ w) +ℤ (d -ℤ o)
equity_more a b w d o = omega (int_laws, -ℤ_parts)

gap_more : (e d r : ℤ) → (e +ℤ d) -ℤ r ≡ (e -ℤ r) +ℤ d
gap_more e d r = omega (int_laws, -ℤ_parts)

-- What an asset and a liability count for on the sheet of a business
abbrev pub asset_counts : (business : ℕ) → Asset → ℤ
asset_counts k a = if a.business == k && not a.is_archived then get_asset_display_value a else pos 0

abbrev pub liability_counts : (business : ℕ) → Liability → ℤ
liability_counts k l = if l.business == k && is_active l.status then l.amount_owed else pos 0

-- An asset and a liability that are put into the tables raise the assets and the liabilities of a
-- business by what they count for: their value and amount where they are the business's, not archived
-- and active, and 0 otherwise. The owner's equity and the reconciliation move by the difference, and
-- the recorded equity stays.
pub calculate_balance_sheet_adds :
    (business today : ℕ) (t : Tables) (a : Asset) (l : Liability)
    → let s = calculate_balance_sheet business today t in
      let s' =
        calculate_balance_sheet business today
          (record t { assets = a ∷ t.assets; liabilities = l ∷ t.liabilities }) in
      let d = asset_counts business a in
      let o = liability_counts business l in
      (s'.total_assets ≡ s.total_assets +ℤ d)
      × (s'.total_liabilities ≡ s.total_liabilities +ℤ o)
      × (s'.owners_equity ≡ s.owners_equity +ℤ (d -ℤ o))
      × (s'.recorded_equity ≡ s.recorded_equity)
      × (s'.equity_reconciliation ≡ s.equity_reconciliation +ℤ (d -ℤ o))
unfolding calculate_balance_sheet
calculate_balance_sheet_adds business today t a l =
    let s = calculate_balance_sheet business today t in
    let s' =
      calculate_balance_sheet business today
        (record t { assets = a ∷ t.assets; liabilities = l ∷ t.liabilities }) in
    let d = asset_counts business a in
    let o = liability_counts business l in
    let more =
      sum_ℤ-keep_cons get_asset_display_value
        (λ (x : Asset). x.business == business && not x.is_archived) a t.assets in
    let owed =
      sum_ℤ-keep_cons (λ (x : Liability). x.amount_owed)
        (λ (x : Liability). x.business == business && is_active x.status) l t.liabilities in
    let assets =
      ap (λ b. s.cash_and_bank_balances +ℤ b) more
      ∙ +ℤ_more s.cash_and_bank_balances s.business_assets_total d in
    let equity =
      ap (λ b. (s.cash_and_bank_balances +ℤ b) -ℤ s'.total_liabilities) more
      ∙ (ap (λ w. (s.cash_and_bank_balances +ℤ (s.business_assets_total +ℤ d)) -ℤ w) owed
          ∙ equity_more s.cash_and_bank_balances s.business_assets_total s.total_liabilities d o) in
    (
      assets,
      owed,
      equity,
      refl,
      ap (λ e. e -ℤ s.recorded_equity) equity ∙ gap_more s.owners_equity (d -ℤ o) s.recorded_equity,
    )

-- No asset of the list was updated later.
abbrev IsLatest : Asset → List Asset → Type 0
IsLatest a = All (λ (x : Asset). x.updated_at ≤ a.updated_at)

latest_from-some :
    (a : Asset) (rest : List Asset)
    → (b : Asset) × (latest_from (some a) rest ≡ some b)
      × ((b ≡ a) ⊎ Memᴰ b rest)
      × (a.updated_at ≤ b.updated_at)
      × IsLatest b rest
unfolding latest_from
latest_from-some a [] = (a, refl, inl refl, omega arith, tt)
latest_from-some a (x ∷ rest) = elim (Bool-cases (ltb a.updated_at x.updated_at)) [
  | inl later ↦
      let (b, e, m, h, hs) = latest_from-some x rest in
      rw later (
        b,
        e,
        inr (elim m [ inl same ↦ Memᴰ.head same | inr there ↦ Memᴰ.tail there ]),
        ground arith,
        (h, hs),
      )
  | inr not_later ↦
      let (b, e, m, h, hs) = latest_from-some a rest in
      rw not_later (
        b,
        e,
        elim m [ inl same ↦ inl same | inr there ↦ inr (Memᴰ.tail there) ],
        h,
        (ground arith, hs),
      )
]

-- The inventory reminder is about an asset of the list that no other was updated after, and there is
-- one wherever the list is not empty.
get_latest_inventory_update_lem :
    (x : Asset) (rest : List Asset)
    → (b : Asset) × (get_latest_inventory_update (x ∷ rest) ≡ some b)
      × Memᴰ b (x ∷ rest)
      × All (λ (y : Asset). y.updated_at ≤ b.updated_at) (x ∷ rest)
unfolding latest_from
get_latest_inventory_update_lem x rest =
    let (b, e, m, h, hs) = latest_from-some x rest in
    (b, e, elim m [ inl same ↦ Memᴰ.head same | inr there ↦ Memᴰ.tail there ], (h, hs))
