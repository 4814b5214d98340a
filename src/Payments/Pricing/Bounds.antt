-- ===== src/Payments/Pricing/Bounds.antt =====
-- What a checkout costs.
use mytrackr_backend.Prelude.{ℕ, ◌+◌, ◌-◌, ◌*◌, ◌≤◌, ◌<◌, ◌≡◌, true, some, arith}
use native.Mathlib.Nat.{div-lt_iff_lt-mul}
use mytrackr_backend.Calendar.{ms_per_day}
use mytrackr_backend.Payments.Entities.{Plan, Subscription}
use mytrackr_backend.Payments.Pricing.{ceil_div, round_div, billing_period_days, upgrade_pricing}

ceil_div_mono : (a b : ℕ) → a ≤ b → ceil_div a ms_per_day ≤ ceil_div b ms_per_day
unfolding ceil_div
ceil_div_mono a b h = omega arith

ceil_div_pos : (a : ℕ) → 0 < a → 0 < ceil_div a ms_per_day
unfolding ceil_div
ceil_div_pos a h = omega arith

-- A share of a price is at most the price.
round_div-le : (p r d : ℕ) → 0 < d → r ≤ d → round_div (p * r) d ≤ p
unfolding round_div
round_div-le p r d h k =
    let share : p * r ≤ p * d = grind arith in
    let below : 2 * (p * r) + d < (p + 1) * (2 * d) = omega arith in
    omega (
      arith,
      (div-lt_iff_lt-mul {k = 2 * d} {x = 2 * (p * r) + d} {y = p + 1} (omega arith)).1 below,
    )

days_bounds :
    (now start end_at : ℕ)
    → start ≤ now
    → now < end_at
    → (0 < billing_period_days now (some start) end_at)
      × (ceil_div (end_at - now) ms_per_day ≤ billing_period_days now (some start) end_at)
unfolding billing_period_days
days_bounds now start end_at h k = ground (arith, ceil_div_mono (end_at - now) (end_at - start))

-- The price of a prorated upgrade, for a subscription that began at or before the present and ends
-- after it: the credit is at most the current plan's price, and the amount due is at least the
-- difference of the two prices, more than 0, and at most the new plan's price.
pub upgrade_pricing_bounds :
    (now start end_at : ℕ) (target current : Plan) (a : Subscription)
    → a.current_period_start ≡ some start
    → start ≤ now
    → now < end_at
    → (upgrade_pricing now target current a end_at).is_prorated_upgrade ≡ true
    → let pr = upgrade_pricing now target current a end_at in
      (pr.prorated_credit ≤ current.price)
      × (target.price - current.price ≤ pr.amount_due)
      × (0 < pr.amount_due)
      × (pr.amount_due ≤ target.price)
unfolding upgrade_pricing
upgrade_pricing_bounds now start end_at target current a e h k up =
    let (days_pos, within) = days_bounds now start end_at h k in
    let credit =
      round_div-le current.price (ceil_div (end_at - now) ms_per_day)
        (billing_period_days now (some start) end_at) days_pos within in
    ground arith
