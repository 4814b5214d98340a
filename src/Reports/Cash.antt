-- ===== src/Reports/Cash.antt =====
-- src/reports/services/cash-flow.service.ts: the cash flow statement.
pub mod Activities
use mytrackr_backend.Prelude.{
  ℕ, suc, ◌+◌, ◌-◌, ◌*◌, ◌/◌, max, Bool, true, false, Option, none, some, List, [], ◌∷◌, keep, ◌==◌,
  if◌then◌else◌,
}
use mytrackr_backend.Prelude.Int.{ℤ, pos, negsuc, pos_part, ◌+ℤ◌, ◌-ℤ◌, ltb_ℤ, sum_ℤ}
use mytrackr_backend.Calendar.{year_of, month_of, day}
use mytrackr_backend.Reports.Treatment.{
  AccountingTreatment, revenue, cogs, operating_expense, other_expense, refund_reversal,
  owner_contribution, owner_drawing, loan_received, loan_repayment, asset_movement,
  internal_transfer, unclassified, Transaction, TransactionDirection, credit, debit,
  get_accounting_treatment,
}
use mytrackr_backend.Reports.Ledger.{in_period}

-- The money that comes in and goes out
pub record Flow : Type 0 where
  pub cash_in : ℤ
  pub cash_out : ℤ

abbrev pub no_flow : Flow
no_flow = record { cash_in = pos 0; cash_out = pos 0 }

abbrev pub net : Flow → ℤ
net f = f.cash_in -ℤ f.cash_out

abbrev pub receive : ℤ → Flow → Flow
receive amount f = record f { cash_in = f.cash_in +ℤ amount }

abbrev pub pay : ℤ → Flow → Flow
pay amount f = record f { cash_out = f.cash_out +ℤ amount }

abbrev pub move : TransactionDirection → ℤ → Flow → Flow
move credit amount f = receive amount f
move debit amount f = pay amount f

-- The counters of the loop
pub record Flows : Type 0 where
  pub total : Flow
  pub internal : Flow
  pub operating : Flow
  pub investing : Flow
  pub financing : Flow
  pub unclassified : Flow
  pub refunds : ℤ

abbrev pub no_flows : Flows
no_flows = record {
  total = no_flow;
  internal = no_flow;
  operating = no_flow;
  investing = no_flow;
  financing = no_flow;
  unclassified = no_flow;
  refunds = pos 0;
}

abbrev refund : TransactionDirection → ℤ → Flows → Flows
refund credit amount f = record f {
  operating = receive amount f.operating;
  refunds = f.refunds +ℤ amount;
}
refund debit amount f = f

-- The activity that a treatment belongs to
unfoldable pub classify : AccountingTreatment → TransactionDirection → ℤ → Flows → Flows
classify revenue d amount f = record f { operating = receive amount f.operating }
classify cogs d amount f = record f { operating = pay amount f.operating }
classify operating_expense d amount f = record f { operating = pay amount f.operating }
classify other_expense d amount f = record f { operating = pay amount f.operating }
classify refund_reversal d amount f = refund d amount f
classify asset_movement d amount f = record f { investing = move d amount f.investing }
classify loan_repayment d amount f = record f { financing = pay amount f.financing }
classify loan_received d amount f = record f { financing = receive amount f.financing }
classify owner_contribution d amount f = record f { financing = receive amount f.financing }
classify owner_drawing d amount f = record f { financing = pay amount f.financing }
classify unclassified d amount f = record f { unclassified = move d amount f.unclassified }
classify internal_transfer d amount f = f

abbrev pub is_internal : AccountingTreatment → Bool
is_internal internal_transfer = true
is_internal _ = false

-- The body of the loop
unfoldable pub flow_as : AccountingTreatment → TransactionDirection → ℤ → Flows → Flows
flow_as t d amount f =
    if is_internal t
    then record f { internal = move d amount f.internal }
    else classify t d amount (record f { total = move d amount f.total })

unfoldable pub flow_all : List Transaction → Flows → Flows
flow_all [] f = f
flow_all (tx ∷ txs) f =
    flow_all txs (flow_as (get_accounting_treatment tx) tx.direction tx.amount f)

-- (endYear - startYear) * 12 + (endMonth - startMonth) + 1, at least 1; both in days
unfoldable pub months_between : (start end_at : ℕ) → ℕ
months_between start end_at =
    let from = year_of (day start) * 12 + month_of (day start) in
    let to = year_of (day end_at) * 12 + month_of (day end_at) + 1 in max 1 (to - from)

-- Math.round(a / b): the next whole number to a / b, a half rounded up
unfoldable pub round_ratio : ℤ → ℕ → ℤ
round_ratio (pos a) b = pos ((2 * a + b) / (2 * b))
round_ratio (negsuc a) b =
    let x = 2 * suc a in
    if ltb_ℤ (pos x) (pos (suc b)) then pos 0 else pos 0 -ℤ pos ((x - b + 2 * b - 1) / (2 * b))

pub record CashFlow : Type 0 where
  pub flows : Flows
  pub net_cash_flow : ℤ
  pub months : ℕ
  -- The burn of a month is this over the months.
  pub confirmed_operating_out : ℕ
  pub cash_balance : ℤ
  -- In tenths of a month
  pub months_of_runway : Option ℤ
  pub low_runway_alert : Bool

abbrev scaled : ℤ → ℕ → ℤ
scaled (pos a) n = pos (a * n)
scaled (negsuc a) n = pos 0 -ℤ pos (suc a * n)

abbrev pub runway : (balance : ℤ) → (months burned : ℕ) → Option ℤ
runway balance months burned =
    if burned == 0 then none else some (round_ratio (scaled balance (10 * months)) burned)

abbrev pub is_low : Option ℤ → Bool
is_low r = elim r [ none ↦ false | some tenths ↦ ltb_ℤ tenths (pos 20) ]

-- calculateCashFlow, with the balances of the business's bank accounts
unfoldable pub calculate_cash_flow :
    (business start end_at : ℕ) → List Transaction → (balances : List ℤ) → CashFlow
calculate_cash_flow business start end_at rows balances =
    let f = flow_all (keep (in_period business start end_at) rows) no_flows in
    let months = months_between start end_at in
    let burned = pos_part (f.operating.cash_out -ℤ f.refunds) in
    let balance = sum_ℤ (λ b. b) balances in
    let left = runway balance months burned in
    record {
      flows = f;
      net_cash_flow = net f.total;
      months = months;
      confirmed_operating_out = burned;
      cash_balance = balance;
      months_of_runway = left;
      low_runway_alert = is_low left;
    }
