-- ===== src/Tax/Company.antt =====
-- The company income tax.
use mytrackr_backend.Prelude.{ℕ, ◌*◌, ◌≤◌, ◌≡◌, arith}
use mytrackr_backend.Prelude.Int.{ℤ, pos_part, ◌-ℤ◌, ◌≤ℤ◌, -ℤ_parts}
use mytrackr_backend.Tax.{calculate_cit}

rate_mono :
    (revenue revenue' net net' ded a a' : ℤ)
    → revenue ≤ℤ revenue'
    → (calculate_cit revenue net ded a).tax_rate ≤ (calculate_cit revenue' net' ded a').tax_rate
unfolding calculate_cit
rate_mono revenue revenue' net net' ded a a' h = ground arith

tax_product :
    (revenue net ded a : ℤ)
    → let t = calculate_cit revenue net ded a in
      t.estimated_annual_tax ≡ pos_part (net -ℤ ded) * t.tax_rate
unfolding calculate_cit
tax_product revenue net ded a = ground arith

rate_bound : (revenue net ded a : ℤ) → (calculate_cit revenue net ded a).tax_rate ≤ 30
unfolding calculate_cit
rate_bound revenue net ded a = ground arith

product_mono : (p p' q q' : ℕ) → p ≤ p' → q ≤ q' → p * q ≤ p' * q'
product_mono p p' q q' h k = grind arith

-- The company tax never falls when the revenue and the profit grow, with the same deductions and
-- whatever the assets, and it is at most three tenths of the profit after deductions.
pub calculate_cit_mono :
    (revenue revenue' net net' ded a a' : ℤ)
    → revenue ≤ℤ revenue'
    → net ≤ℤ net'
    → ((calculate_cit revenue net ded a).estimated_annual_tax
        ≤ (calculate_cit revenue' net' ded a').estimated_annual_tax)
      × ((calculate_cit revenue net ded a).estimated_annual_tax ≤ pos_part (net -ℤ ded) * 30)
calculate_cit_mono revenue revenue' net net' ded a a' h k =
    let p = pos_part (net -ℤ ded) in
    let p' = pos_part (net' -ℤ ded) in
    let grown : p ≤ p' = ground (arith, -ℤ_parts net ded, -ℤ_parts net' ded) in
    (
      rw (tax_product revenue net ded a, tax_product revenue' net' ded a')
          (product_mono p p' _ _ grown (rate_mono revenue revenue' net net' ded a a' h)),
      rw (tax_product revenue net ded a)
          (product_mono p p _ 30 (omega arith) (rate_bound revenue net ded a)),
    )
