-- ===== src/Reports/Tests.antt =====
-- The statements on a small business: its rows, its tables and its files.
use mytrackr_backend.Prelude.{ℕ, ◌≡◌, refl, true, false, none, some, String, List, [], ◌∷◌, map}
use mytrackr_backend.Prelude.Int.{ℤ, pos, negsuc, ◌+ℤ◌, ◌-ℤ◌, sum_ℤ}
use mytrackr_backend.Prelude.Codes.{Codes, codes, includes, to_lower_case, lower_one, starts_with}
use mytrackr_backend.Reports.Treatment.{
  Transaction, TransactionDirection, credit, debit, revenue, normalize, get_accounting_treatment,
  derived_treatment, is_refund, is_movement, by_category, is_other_expense, trim_start, squeeze,
}
use mytrackr_backend.Reports.Treatment.Direction.{agrees, get_accounting_treatment-agrees}
use mytrackr_backend.Reports.Profit.{get_categorised_summary, net_profit, categorised_in}
use mytrackr_backend.Reports.Profit.Sums.{IsBalanced, effect, get_categorised_summary_lem}
use mytrackr_backend.Reports.Cash.{calculate_cash_flow, net, flow_all, flow_as, classify}
use mytrackr_backend.Reports.Cash.Activities.{is_paid_refund, calculate_cash_flow_activities}
use mytrackr_backend.Reports.Balance.{
  Asset, Liability, inventory, Tables, calculate_balance_sheet, active,
}
use mytrackr_backend.Reports.Balance.Equity.{asset_counts, calculate_balance_sheet_adds}
use mytrackr_backend.Reports.Csv.{csv}
use mytrackr_backend.Reports.Csv.RoundTrip.{read_csv, as_read, read_csv-csv}

abbrev row : ℕ → ℤ → TransactionDirection → String → String → Transaction
row n amount d category sub = record {
  id = n;
  business = some 1;
  date = 5;
  amount = amount;
  direction = d;
  name = none;
  description = none;
  category = some category;
  sub_category = some sub;
  stored_type = none;
  is_categorised = true;
  deleted_at = none;
}

abbrev sale : Transaction
sale = row 1 (pos 900) credit "INCOME" "Sales"

abbrev rent : Transaction
rent = row 2 (pos 250) debit "EXPENSE" "Rent"

-- A debit that a sub-category row counts as revenue
abbrev odd : Transaction
odd = record (row 3 (pos 40) debit "EXPENSE" "Discount") { stored_type = some revenue }

get_accounting_treatment-agrees_example : agrees (get_accounting_treatment rent) debit ≡ true
get_accounting_treatment-agrees_example = get_accounting_treatment-agrees rent refl

get_categorised_summary_lem_example :
    IsBalanced (get_categorised_summary 1 0 9 (sale ∷ rent ∷ []))
    × (net_profit (get_categorised_summary 1 0 9 (sale ∷ rent ∷ []))
        ≡ sum_ℤ effect (categorised_in 1 0 9 (sale ∷ rent ∷ [])))
get_categorised_summary_lem_example = get_categorised_summary_lem 1 0 9 (sale ∷ rent ∷ [])

sale_plain : is_paid_refund (get_accounting_treatment sale) credit ≡ false
unfolding get_accounting_treatment derived_treatment is_refund is_movement by_category
sale_plain = refl

rent_plain : is_paid_refund (get_accounting_treatment rent) debit ≡ false
unfolding get_accounting_treatment derived_treatment is_refund is_movement by_category
    is_other_expense includes normalize trim_start squeeze to_lower_case lower_one starts_with
rent_plain = refl

calculate_cash_flow_activities_example :
    (calculate_cash_flow 1 0 9 (sale ∷ rent ∷ []) (pos 7000 ∷ [])).net_cash_flow
    ≡ net (calculate_cash_flow 1 0 9 (sale ∷ rent ∷ []) (pos 7000 ∷ [])).flows.operating
      +ℤ net (calculate_cash_flow 1 0 9 (sale ∷ rent ∷ []) (pos 7000 ∷ [])).flows.investing
      +ℤ net (calculate_cash_flow 1 0 9 (sale ∷ rent ∷ []) (pos 7000 ∷ [])).flows.financing
      +ℤ net (calculate_cash_flow 1 0 9 (sale ∷ rent ∷ []) (pos 7000 ∷ [])).flows.unclassified
calculate_cash_flow_activities_example =
    calculate_cash_flow_activities 1 0 9 (sale ∷ rent ∷ []) (pos 7000 ∷ [])
      ((refl, sale_plain), ((refl, rent_plain), tt))

-- Money that goes out as revenue: the cash falls by 40, the operating activity rises by 40.
odd_total : (calculate_cash_flow 1 0 9 (odd ∷ []) []).net_cash_flow ≡ negsuc 39
unfolding calculate_cash_flow flow_all flow_as get_accounting_treatment classify ◌+ℤ◌ ◌-ℤ◌
odd_total = refl

odd_operating : net (calculate_cash_flow 1 0 9 (odd ∷ []) []).flows.operating ≡ pos 40
unfolding calculate_cash_flow flow_all flow_as get_accounting_treatment classify ◌+ℤ◌ ◌-ℤ◌
odd_operating = refl

abbrev asset : ℕ → ℕ → Asset
asset n at = record {
  id = n;
  business = 1;
  name = "Stock";
  category = inventory;
  purchase_value = pos 500;
  current_value = none;
  is_archived = false;
  updated_at = at;
}

abbrev tables : Tables
tables = record {
  bank_accounts =
      record { id = 1; business = some 1; bank_name = "GTB"; current_balance = pos 7000 } ∷ [];
  assets = asset 1 4 ∷ asset 2 8 ∷ [];
  liabilities =
      record { id = 1; business = 1; name = "Loan"; amount_owed = pos 300; status = active } ∷ [];
  transactions = sale ∷ rent ∷ [];
}

-- A loan of another business counts for nothing.
abbrev other_loan : Liability
other_loan = record { id = 2; business = 2; name = "Loan"; amount_owed = pos 900; status = active }

calculate_balance_sheet_adds_example :
    let s = calculate_balance_sheet 1 9 tables in
    let s' = calculate_balance_sheet 1 9 (record tables {
      assets = asset 3 9 ∷ tables.assets;
      liabilities = other_loan ∷ tables.liabilities;
    }) in
    let d = asset_counts 1 (asset 3 9) in
    (s'.total_assets ≡ s.total_assets +ℤ d)
    × (s'.total_liabilities ≡ s.total_liabilities +ℤ pos 0)
    × (s'.owners_equity ≡ s.owners_equity +ℤ (d -ℤ pos 0))
    × (s'.recorded_equity ≡ s.recorded_equity)
    × (s'.equity_reconciliation ≡ s.equity_reconciliation +ℤ (d -ℤ pos 0))
calculate_balance_sheet_adds_example =
    calculate_balance_sheet_adds 1 9 tables (asset 3 9) other_loan

-- Two cells, one with a comma and quotes, then a blank line
abbrev file : List (List Codes)
file = (codes "Rent" ∷ codes "a,\"b\"" ∷ []) ∷ [] ∷ (codes "=1+1" ∷ []) ∷ []

read_csv-csv_example : read_csv (csv file) ≡ map as_read file
read_csv-csv_example = read_csv-csv file tt
