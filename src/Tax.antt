-- ===== src/Tax.antt =====
-- src/tax/services/tax.service.ts: the estimates of the personal and of the company income tax.
-- Amounts are whole hundredths, and a rate is a whole number of percent, so that a tax is counted in
-- ten-thousandths; the arithmetic is exact, where the code has doubles. The taxes of the breakdown's
-- lines are hundredths.
pub mod Personal
pub mod Company
mod Tests
use mytrackr_backend.Prelude.{
  ℕ, ◌+◌, ◌-◌, ◌*◌, ◌/◌, min, max, Bool, true, false, ◌&&◌, Option, none, some, String, List, [],
  ◌∷◌, ◌==◌, ltb, leb, if◌then◌else◌,
}
use mytrackr_backend.Prelude.Int.{ℤ, pos_part, ◌-ℤ◌}

pub record Band : Type 0 where
  -- `none` is Infinity
  pub width : Option ℕ
  pub rate : ℕ
  pub label : String

abbrev pub bands : List Band
bands =
    record { width = some 80000000; rate = 0; label = "First 800,000" }
    ∷ record { width = some 220000000; rate = 15; label = "Next 2,200,000" }
    ∷ record { width = some 900000000; rate = 18; label = "Next 9,000,000" }
    ∷ record { width = some 1300000000; rate = 21; label = "Next 13,000,000" }
    ∷ record { width = some 2500000000; rate = 23; label = "Next 25,000,000" }
    ∷ record { width = none; rate = 25; label = "Above 50,000,000" }
    ∷ []

-- A line of the breakdown
pub record Line : Type 0 where
  pub band_limit : String
  pub rate : ℕ
  pub taxable_amount : ℕ
  pub tax_generated : ℕ

abbrev pub taxable_in : Band → ℕ → ℕ
taxable_in b remaining = elim b.width [ none ↦ remaining | some w ↦ min remaining w ]

-- Number(tax.toFixed(2)): hundredths, of ten-thousandths
abbrev pub to_fixed : ℕ → ℕ
to_fixed tax = (tax + 50) / 100

abbrev pub add_line : Band → ℕ → List Line → List Line
add_line b taxable lines =
    if ltb 0 taxable
    then record {
      band_limit = b.label;
      rate = b.rate;
      taxable_amount = taxable;
      tax_generated = to_fixed (taxable * b.rate);
    }
      ∷ lines
    else lines

-- The loop over the bands: the tax and the breakdown
unfoldable pub tax_bands : List Band → (remaining : ℕ) → ℕ × List Line
tax_bands [] remaining = (0, [])
tax_bands (b ∷ bs) remaining =
    let taxable = taxable_in b remaining in
    let (tax, lines) = tax_bands bs (remaining - taxable) in
    if remaining - taxable == 0
    then (taxable * b.rate, add_line b taxable [])
    else (taxable * b.rate + tax, add_line b taxable lines)

pub record PersonalTax : Type 0 where
  pub chargeable_income : ℕ
  pub estimated_annual_tax : ℕ
  pub minimum_tax_floor : ℕ
  pub minimum_tax_applied : Bool
  pub breakdown : List Line

-- calculatePIT; the monthly amount is a twelfth of the annual one
unfoldable pub calculate_pit : (net_profit gross_income deductions : ℤ) → PersonalTax
calculate_pit net_profit gross_income deductions =
    let chargeable = pos_part (net_profit -ℤ deductions) in
    let (total, lines) = tax_bands bands chargeable in
    let minimum = pos_part gross_income in
    let annual = max total minimum in
    record {
      chargeable_income = chargeable;
      estimated_annual_tax = annual;
      minimum_tax_floor = minimum;
      minimum_tax_applied = annual == minimum && ltb total minimum;
      breakdown = lines;
    }

-- calculateRentRelief
unfoldable pub calculate_rent_relief : ℤ → ℕ
calculate_rent_relief rent_paid = min (pos_part rent_paid * 20) 5000000000

pub record CompanyTax : Type 0 where
  pub company_size : String
  pub assessable_profit : ℕ
  pub tax_rate : ℕ
  pub estimated_annual_tax : ℕ
  pub is_exempt : Bool
  pub total_assets_considered : ℤ

abbrev company_tax : ℤ → String → ℕ → ℕ → CompanyTax
company_tax assets size rate profit = record {
  company_size = size;
  assessable_profit = profit;
  tax_rate = rate;
  estimated_annual_tax = profit * rate;
  is_exempt = rate == 0;
  total_assets_considered = assets;
}

-- calculateCIT, which only passes the assets on
unfoldable pub calculate_cit : (total_revenue net_profit deductions total_assets : ℤ) → CompanyTax
calculate_cit total_revenue net_profit deductions total_assets =
    let profit = pos_part (net_profit -ℤ deductions) in
    if leb 10000000000 (pos_part total_revenue)
    then company_tax total_assets "Large Company" 30 profit
    else if ltb 2500000000 (pos_part total_revenue)
    then company_tax total_assets "Medium Company" 20 profit
    else company_tax total_assets "Small Company" 0 profit
