-- ===== src/Reports/Cash/Activities.antt =====
-- The four activities of the statement against the cash that moves.
use mytrackr_backend.Prelude.{
  ℕ, ◌≡◌, ◌∙◌, refl, Bool, true, false, none, List, [], ◌∷◌, All, keep, if_both,
}
use mytrackr_backend.Prelude.Int.{ℤ, pos, ◌+ℤ◌, ◌-ℤ◌, int_laws, eq_of_diff}
use mytrackr_backend.Reports.Treatment.{
  AccountingTreatment, revenue, cogs, operating_expense, other_expense, refund_reversal,
  owner_contribution, owner_drawing, loan_received, loan_repayment, asset_movement,
  internal_transfer, unclassified, Transaction, TransactionDirection, credit, debit,
  get_accounting_treatment,
}
use mytrackr_backend.Reports.Treatment.Direction.{agrees, get_accounting_treatment-agrees}
use mytrackr_backend.Reports.Ledger.{in_period}
use mytrackr_backend.Reports.Cash.{
  Flows, net, classify, flow_as, flow_all, no_flows, calculate_cash_flow,
}

-- The cash that moved and that no activity accounts for
abbrev pub gap : Flows → ℤ
gap f = net f.total -ℤ (net f.operating +ℤ net f.investing +ℤ net f.financing +ℤ net f.unclassified)

-- A refund that goes out
abbrev pub is_paid_refund : AccountingTreatment → TransactionDirection → Bool
is_paid_refund refund_reversal debit = true
is_paid_refund _ _ = false

flow_as-gap :
    (t : AccountingTreatment) (d : TransactionDirection) (a : ℤ) (f : Flows)
    → agrees t d ≡ true
    → is_paid_refund t d ≡ false
    → gap (flow_as t d a f) ≡ gap f
unfolding flow_as classify
flow_as-gap revenue credit a f h k = omega int_laws
flow_as-gap revenue debit a f h k = cc
flow_as-gap cogs credit a f h k = cc
flow_as-gap cogs debit a f h k = omega int_laws
flow_as-gap operating_expense credit a f h k = cc
flow_as-gap operating_expense debit a f h k = omega int_laws
flow_as-gap other_expense credit a f h k = cc
flow_as-gap other_expense debit a f h k = omega int_laws
flow_as-gap refund_reversal credit a f h k = omega int_laws
flow_as-gap refund_reversal debit a f h k = cc
flow_as-gap owner_contribution credit a f h k = omega int_laws
flow_as-gap owner_contribution debit a f h k = cc
flow_as-gap owner_drawing credit a f h k = cc
flow_as-gap owner_drawing debit a f h k = omega int_laws
flow_as-gap loan_received credit a f h k = omega int_laws
flow_as-gap loan_received debit a f h k = cc
flow_as-gap loan_repayment credit a f h k = cc
flow_as-gap loan_repayment debit a f h k = omega int_laws
flow_as-gap asset_movement credit a f h k = omega int_laws
flow_as-gap asset_movement debit a f h k = omega int_laws
flow_as-gap internal_transfer credit a f h k = omega int_laws
flow_as-gap internal_transfer debit a f h k = omega int_laws
flow_as-gap unclassified credit a f h k = omega int_laws
flow_as-gap unclassified debit a f h k = omega int_laws

-- Rows that are classified by the program itself, and are no refunds paid out
abbrev pub IsPlainRow : Transaction → Type 0
IsPlainRow tx =
    (tx.stored_type ≡ none) × (is_paid_refund (get_accounting_treatment tx) tx.direction ≡ false)

flow_all-gap :
    (txs : List Transaction) (f : Flows) → All IsPlainRow txs → gap (flow_all txs f) ≡ gap f
unfolding flow_all
flow_all-gap [] f h = refl
flow_all-gap (tx ∷ txs) f ((fresh, no_refund), hs) =
    let t = get_accounting_treatment tx in
    flow_all-gap txs (flow_as t tx.direction tx.amount f) hs
    ∙ flow_as-gap t tx.direction tx.amount f (get_accounting_treatment-agrees tx fresh) no_refund

All-keep :
    (p : Transaction → Bool) (txs : List Transaction)
    → All IsPlainRow txs
    → All IsPlainRow (keep p txs)
All-keep p [] h = tt
All-keep p (tx ∷ txs) (h, hs) =
    if_both (All IsPlainRow) (p tx) (tx ∷ keep p txs) (keep p txs) (λ _. (h, All-keep p txs hs))
      (λ _. All-keep p txs hs)

no_gap : gap no_flows ≡ pos 0
no_gap = omega int_laws

-- Where no row has a stored accounting type and none is a refund that is paid out, the net cash flow
-- is the sum of those of the four activities: operating, investing, financing and unclassified.
pub calculate_cash_flow_activities :
    (business start end_at : ℕ) (rows : List Transaction) (balances : List ℤ)
    → All IsPlainRow rows
    → let c = calculate_cash_flow business start end_at rows balances in
      c.net_cash_flow
      ≡ net c.flows.operating
        +ℤ net c.flows.investing
        +ℤ net c.flows.financing
        +ℤ net c.flows.unclassified
unfolding calculate_cash_flow
calculate_cash_flow_activities business start end_at rows balances h =
    let txs = keep (in_period business start end_at) rows in
    eq_of_diff _ _
      (flow_all-gap txs no_flows (All-keep (in_period business start end_at) rows h) ∙ no_gap)
