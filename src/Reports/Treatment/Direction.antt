-- ===== src/Reports/Treatment/Direction.antt =====
-- Which way the money of a treatment goes.
use mytrackr_backend.Prelude.{◌≡◌, Bool, true, false, none, arith}
use mytrackr_backend.Reports.Treatment.{
  AccountingTreatment, Transaction, TransactionDirection, by_category, derived_treatment,
  get_accounting_treatment, credit, debit, revenue, cogs, operating_expense, other_expense,
  owner_contribution, owner_drawing, loan_received, loan_repayment,
}

-- The treatments that mean money in are those of credits, those that mean money out of debits; the
-- others can be either.
abbrev pub agrees : AccountingTreatment → TransactionDirection → Bool
agrees revenue credit = true
agrees revenue debit = false
agrees owner_contribution credit = true
agrees owner_contribution debit = false
agrees loan_received credit = true
agrees loan_received debit = false
agrees cogs credit = false
agrees cogs debit = true
agrees operating_expense credit = false
agrees operating_expense debit = true
agrees other_expense credit = false
agrees other_expense debit = true
agrees owner_drawing credit = false
agrees owner_drawing debit = true
agrees loan_repayment credit = false
agrees loan_repayment debit = true
agrees _ _ = true

by_category-agrees : (tx : Transaction) → agrees (by_category tx) tx.direction ≡ true
unfolding by_category
by_category-agrees tx = ground arith

-- A transaction without a stored accounting type is given a treatment that agrees with the
-- direction of its money.
pub get_accounting_treatment-agrees :
    (tx : Transaction)
    → tx.stored_type ≡ none
    → agrees (get_accounting_treatment tx) tx.direction ≡ true
unfolding get_accounting_treatment derived_treatment
get_accounting_treatment-agrees tx fresh = ground (arith, by_category-agrees tx)
