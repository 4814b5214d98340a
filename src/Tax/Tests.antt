-- ===== src/Tax/Tests.antt =====
-- The taxes of a profit of 4,000,000.00, from 5,000,000.00 of income and 200,000.00 of deductions.
use mytrackr_backend.Prelude.{ℕ, ◌*◌, ◌≤◌, ◌≡◌, refl, max, length}
use mytrackr_backend.Prelude.Int.{pos, ◌-ℤ◌}
use mytrackr_backend.Tax.{calculate_pit, tax_bands}
use mytrackr_backend.Tax.Personal.{sum_taxable, IsRounded, calculate_pit_breakdown}

-- 330,000.00 on the second band and 144,000.00 on the third
pit_due :
    (calculate_pit (pos 400000000) (pos 500000000) (pos 20000000)).estimated_annual_tax ≡ 4740000000
unfolding calculate_pit tax_bands ◌-ℤ◌
pit_due = refl

calculate_pit_breakdown_example :
    let t = calculate_pit (pos 400000000) (pos 500000000) (pos 20000000) in
    (sum_taxable t.breakdown ≡ t.chargeable_income)
    × ((tax : ℕ) × (t.estimated_annual_tax ≡ max tax 500000000)
        × IsRounded (length t.breakdown) tax t.breakdown
        × (tax ≤ t.chargeable_income * 25))
calculate_pit_breakdown_example =
    calculate_pit_breakdown (pos 400000000) (pos 500000000) (pos 20000000)
