-- ===== src/Reports/Profit/Sums.antt =====
-- The totals of the statement as sums over its rows, whatever their order.
use mathlib.Core.List.{Permᴰ}
use mytrackr_backend.Prelude.{
  ℕ, ◌≡◌, ◌∙◌, sym, ap, refl, Bool, ◌&&◌, String, List, [], ◌∷◌, str_eq, if◌then◌else◌, if_both,
  inl, inr, Bool-cases, keep,
}
use mytrackr_backend.Prelude.Int.{ℤ, pos, ◌+ℤ◌, ◌-ℤ◌, sum_ℤ, int_laws}
use mytrackr_backend.Reports.Treatment.{
  AccountingTreatment, revenue, cogs, other_expense, operating_expense, refund_reversal,
  owner_contribution, owner_drawing, loan_received, loan_repayment, asset_movement,
  internal_transfer, unclassified, Transaction, is_credit, get_accounting_treatment,
}
use mytrackr_backend.Reports.Ledger.{
  in_period, sum_ℤ-perm, sum_ℤ-keep, where_only, +ℤ_assoc, +ℤ_zero,
}
use mytrackr_backend.Reports.Profit.{
  Line, Summary, add_line, empty_summary, post_as, post_all, get_categorised_summary,
  categorised_in, net_profit,
}

-- What a row adds to the net profit: sales add, costs and expenses subtract, money that comes back
-- adds, and nothing else counts.
abbrev pub effect_as : AccountingTreatment → Transaction → ℤ
effect_as revenue tx = tx.amount
effect_as cogs tx = pos 0 -ℤ tx.amount
effect_as operating_expense tx = pos 0 -ℤ tx.amount
effect_as other_expense tx = pos 0 -ℤ tx.amount
effect_as refund_reversal tx = if is_credit tx then tx.amount else pos 0
effect_as _ tx = pos 0

abbrev pub effect : Transaction → ℤ
effect tx = effect_as (get_accounting_treatment tx) tx

post_as-effect :
    (t : AccountingTreatment) (tx : Transaction) (s : Summary)
    → net_profit (post_as t tx s) ≡ net_profit s +ℤ effect_as t tx
unfolding post_as
post_as-effect revenue tx s = omega int_laws
post_as-effect cogs tx s = omega int_laws
post_as-effect operating_expense tx s = omega int_laws
post_as-effect other_expense tx s = omega int_laws
post_as-effect refund_reversal tx s = elim (Bool-cases (is_credit tx)) [
  | inl c ↦ rw c (omega int_laws)
  | inr d ↦ rw d (omega int_laws)
]
post_as-effect owner_contribution tx s = omega int_laws
post_as-effect owner_drawing tx s = omega int_laws
post_as-effect loan_received tx s = omega int_laws
post_as-effect loan_repayment tx s = omega int_laws
post_as-effect asset_movement tx s = omega int_laws
post_as-effect internal_transfer tx s = omega int_laws
post_as-effect unclassified tx s = omega int_laws

post_all-effect :
    (txs : List Transaction) (s : Summary)
    → net_profit (post_all txs s) ≡ net_profit s +ℤ sum_ℤ effect txs
unfolding post_all
post_all-effect [] s = omega int_laws
post_all-effect (tx ∷ txs) s =
    let t = get_accounting_treatment tx in
    post_all-effect txs (post_as t tx s)
    ∙ ap (λ x. x +ℤ sum_ℤ effect txs) (post_as-effect t tx s)
    ∙ +ℤ_assoc (net_profit s) (effect tx) (sum_ℤ effect txs)

abbrev pub sum_lines : List Line → ℤ
sum_lines = sum_ℤ (λ (l : Line). l.amount)

sum_lines-add_line :
    (label : String) (amount : ℤ) (ls : List Line)
    → sum_lines (add_line label amount ls) ≡ sum_lines ls +ℤ amount
unfolding add_line
sum_lines-add_line label amount [] = omega int_laws
sum_lines-add_line label amount (l ∷ ls) =
    if_both (λ ys. sum_lines ys ≡ sum_lines (l ∷ ls) +ℤ amount) (str_eq l.sub_category label)
      (record l { amount = l.amount +ℤ amount } ∷ ls) (l ∷ add_line label amount ls)
      (λ _. omega int_laws)
      (λ _.
        ap (λ x. l.amount +ℤ x) (sum_lines-add_line label amount ls)
        ∙ sym (+ℤ_assoc l.amount (sum_lines ls) amount))

-- The lines of each part of the statement add up to its total.
pub record IsBalanced (s : Summary) : Type 0 where
  pub income : sum_lines s.income_lines ≡ s.total_revenue
  pub cost : sum_lines s.cogs_lines ≡ s.total_cogs
  pub operating : sum_lines s.operating_expense_lines ≡ s.total_operating_expenses
  pub other : sum_lines s.other_expense_lines ≡ s.total_other_expenses

post_as-IsBalanced :
    (t : AccountingTreatment) (tx : Transaction) (s : Summary)
    → IsBalanced s
    → IsBalanced (post_as t tx s)
unfolding post_as
post_as-IsBalanced revenue tx s h = record {
  income = sum_lines-add_line _ _ s.income_lines ∙ ap (λ x. x +ℤ tx.amount) h.income;
  cost = h.cost;
  operating = h.operating;
  other = h.other;
}
post_as-IsBalanced cogs tx s h = record {
  income = h.income;
  cost = sum_lines-add_line _ _ s.cogs_lines ∙ ap (λ x. x +ℤ tx.amount) h.cost;
  operating = h.operating;
  other = h.other;
}
post_as-IsBalanced other_expense tx s h = record {
  income = h.income;
  cost = h.cost;
  operating = h.operating;
  other = sum_lines-add_line _ _ s.other_expense_lines ∙ ap (λ x. x +ℤ tx.amount) h.other;
}
post_as-IsBalanced operating_expense tx s h = record {
  income = h.income;
  cost = h.cost;
  operating =
      sum_lines-add_line _ _ s.operating_expense_lines ∙ ap (λ x. x +ℤ tx.amount) h.operating;
  other = h.other;
}
post_as-IsBalanced refund_reversal tx s h =
    if_both IsBalanced (is_credit tx) _ s
      (λ _. record {
        income = h.income;
        cost = h.cost;
        operating =
            sum_lines-add_line _ _ s.operating_expense_lines
            ∙ ap (λ x. x +ℤ (pos 0 -ℤ tx.amount)) h.operating;
        other = h.other;
      })
      (λ _. h)
post_as-IsBalanced owner_contribution tx s h = h
post_as-IsBalanced owner_drawing tx s h = h
post_as-IsBalanced loan_received tx s h = h
post_as-IsBalanced loan_repayment tx s h = h
post_as-IsBalanced asset_movement tx s h = h
post_as-IsBalanced internal_transfer tx s h = h
post_as-IsBalanced unclassified tx s h = h

post_all-IsBalanced :
    (txs : List Transaction) (s : Summary) → IsBalanced s → IsBalanced (post_all txs s)
unfolding post_all
post_all-IsBalanced [] s h = h
post_all-IsBalanced (tx ∷ txs) s h =
    post_all-IsBalanced txs (post_as (get_accounting_treatment tx) tx s)
      (post_as-IsBalanced (get_accounting_treatment tx) tx s h)

nothing : net_profit empty_summary ≡ pos 0
nothing = omega int_laws

-- In the statement of any rows, the lines of each part add up to its total, and the net profit is
-- the sum of what each categorised row of the period adds.
pub get_categorised_summary_lem :
    (business start end_at : ℕ) (rows : List Transaction)
    → let s = get_categorised_summary business start end_at rows in
      IsBalanced s × (net_profit s ≡ sum_ℤ effect (categorised_in business start end_at rows))
unfolding get_categorised_summary
get_categorised_summary_lem business start end_at rows = (
  post_all-IsBalanced (categorised_in business start end_at rows) empty_summary
      (record { income = refl; cost = refl; operating = refl; other = refl }),
  post_all-effect (categorised_in business start end_at rows) empty_summary
      ∙ ap (λ x. x +ℤ sum_ℤ effect (categorised_in business start end_at rows)) nothing
      ∙ +ℤ_zero (sum_ℤ effect (categorised_in business start end_at rows)),
)

sum_effect-perm :
    (p : Transaction → Bool) {xs ys : List Transaction}
    → Permᴰ xs ys
    → sum_ℤ effect (keep p xs) ≡ sum_ℤ effect (keep p ys)
sum_effect-perm p {xs} {ys} h =
    sum_ℤ-keep effect p xs ∙ sum_ℤ-perm (where_only p effect) h ∙ sym (sum_ℤ-keep effect p ys)

-- The database may return the rows in any order: the net profit is the same.
pub net_profit-perm :
    (business start end_at : ℕ) {rows rows' : List Transaction}
    → Permᴰ rows rows'
    → net_profit (get_categorised_summary business start end_at rows)
      ≡ net_profit (get_categorised_summary business start end_at rows')
net_profit-perm business start end_at {rows} {rows'} h =
    (get_categorised_summary_lem business start end_at rows).1
    ∙ sum_effect-perm (λ tx. in_period business start end_at tx && tx.is_categorised) h
    ∙ sym (get_categorised_summary_lem business start end_at rows').1
