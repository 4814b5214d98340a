-- ===== src/Reports/Profit.antt =====
-- src/reports/services/pnl.service.ts: the profit and loss statement.
pub mod Sums
use mytrackr_backend.Prelude.{
  ℕ, ◌+◌, Bool, true, false, ◌&&◌, not, Option, none, some, String, List, [], ◌∷◌, str_eq, count,
  keep, if◌then◌else◌,
}
use mytrackr_backend.Prelude.Int.{ℤ, pos, ◌+ℤ◌, ◌-ℤ◌, ltb_ℤ, sum_ℤ}
use mytrackr_backend.Reports.Treatment.{
  AccountingTreatment, revenue, cogs, other_expense, operating_expense, refund_reversal,
  Transaction, is_credit, get_accounting_treatment,
}
use mytrackr_backend.Reports.Ledger.{in_period}

pub record Line : Type 0 where
  pub sub_category : String
  pub amount : ℤ

-- subCategory || 'Unspecified'
abbrev pub label_of : Option String → String
label_of none = "Unspecified"
label_of (some s) = if str_eq s "" then "Unspecified" else s

-- addLine, under its label
unfoldable pub add_line : String → ℤ → List Line → List Line
add_line label amount [] = record { sub_category = label; amount = amount } ∷ []
add_line label amount (l ∷ ls) =
    let later = l ∷ add_line label amount ls in
    if str_eq l.sub_category label then record l { amount = l.amount +ℤ amount } ∷ ls else later

-- The lines and the totals of getCategorisedSummary
pub record Summary : Type 0 where
  pub income_lines : List Line
  pub cogs_lines : List Line
  pub operating_expense_lines : List Line
  pub other_expense_lines : List Line
  pub total_revenue : ℤ
  pub total_cogs : ℤ
  pub total_operating_expenses : ℤ
  pub total_other_expenses : ℤ

abbrev pub empty_summary : Summary
empty_summary = record {
  income_lines = [];
  cogs_lines = [];
  operating_expense_lines = [];
  other_expense_lines = [];
  total_revenue = pos 0;
  total_cogs = pos 0;
  total_operating_expenses = pos 0;
  total_other_expenses = pos 0;
}

abbrev add_operating : String → ℤ → Summary → Summary
add_operating label amount s = record s {
  operating_expense_lines = add_line label amount s.operating_expense_lines;
  total_operating_expenses = s.total_operating_expenses +ℤ amount;
}

-- The body of the loop, by the treatment of the row
unfoldable pub post_as : AccountingTreatment → Transaction → Summary → Summary
post_as revenue tx s = record s {
  income_lines = add_line (label_of tx.sub_category) tx.amount s.income_lines;
  total_revenue = s.total_revenue +ℤ tx.amount;
}
post_as cogs tx s = record s {
  cogs_lines = add_line (label_of tx.sub_category) tx.amount s.cogs_lines;
  total_cogs = s.total_cogs +ℤ tx.amount;
}
post_as other_expense tx s = record s {
  other_expense_lines = add_line (label_of tx.sub_category) tx.amount s.other_expense_lines;
  total_other_expenses = s.total_other_expenses +ℤ tx.amount;
}
post_as operating_expense tx s = add_operating (label_of tx.sub_category) tx.amount s
post_as refund_reversal tx s =
    if is_credit tx then add_operating "Refunds and reversals" (pos 0 -ℤ tx.amount) s else s
post_as _ tx s = s

unfoldable pub post_all : List Transaction → Summary → Summary
post_all [] s = s
post_all (tx ∷ txs) s = post_all txs (post_as (get_accounting_treatment tx) tx s)

abbrev pub categorised_in : (business start end_at : ℕ) → List Transaction → List Transaction
categorised_in business start end_at =
    keep (λ tx. in_period business start end_at tx && tx.is_categorised)

-- getCategorisedSummary, with the totals that follow from it
unfoldable pub get_categorised_summary : (business start end_at : ℕ) → List Transaction → Summary
get_categorised_summary business start end_at rows =
    post_all (categorised_in business start end_at rows) empty_summary

abbrev pub total_expenses : Summary → ℤ
total_expenses s = s.total_operating_expenses +ℤ s.total_other_expenses

abbrev pub gross_profit : Summary → ℤ
gross_profit s = s.total_revenue -ℤ s.total_cogs

abbrev pub net_profit : Summary → ℤ
net_profit s = gross_profit s -ℤ total_expenses s

-- A margin as a fraction, of which the code takes the percentage
pub record Fraction : Type 0 where
  pub numerator : ℤ
  pub denominator : ℤ

abbrev pub margin : ℤ → Summary → Fraction
margin profit s =
    if ltb_ℤ (pos 0) s.total_revenue
    then record { numerator = profit; denominator = s.total_revenue }
    else record { numerator = pos 0; denominator = pos 1 }

pub record ProfitAndLoss : Type 0 where
  pub summary : Summary
  pub gross_profit : ℤ
  pub gross_profit_margin : Fraction
  pub total_expenses : ℤ
  pub net_profit : ℤ
  pub net_profit_margin : Fraction
  pub uncategorised_count : ℕ
  pub uncategorised_value : ℤ

abbrev pub is_uncategorised_in : (business start end_at : ℕ) → Transaction → Bool
is_uncategorised_in business start end_at tx =
    in_period business start end_at tx && not tx.is_categorised

-- calculatePnlForBusiness
unfoldable pub calculate_pnl_for_business :
    (business start end_at : ℕ) → List Transaction → ProfitAndLoss
calculate_pnl_for_business business start end_at rows =
    let s = get_categorised_summary business start end_at rows in
    record {
      summary = s;
      gross_profit = gross_profit s;
      gross_profit_margin = margin (gross_profit s) s;
      total_expenses = total_expenses s;
      net_profit = net_profit s;
      net_profit_margin = margin (net_profit s) s;
      uncategorised_count = count (is_uncategorised_in business start end_at) rows;
      uncategorised_value =
          sum_ℤ (λ (tx : Transaction). tx.amount)
            (keep (is_uncategorised_in business start end_at) rows);
    }
