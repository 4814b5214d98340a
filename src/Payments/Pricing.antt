-- ===== src/Payments/Pricing.antt =====
-- src/payments/services/subscription.service.ts: the price of a checkout
-- (calculateSubscriptionCheckoutPricing and its helpers). Amounts are whole hundredths, so that
-- `roundCurrency` is the rounding to a whole number, half up; the arithmetic is exact.
pub mod Bounds
use mytrackr_backend.Prelude.{
  ℕ, ◌+◌, ◌-◌, ◌*◌, ◌/◌, max, Bool, true, false, ◌||◌, Option, none, some, ltb, leb, ◌==◌,
  if◌then◌else◌,
}
use mytrackr_backend.Calendar.{ms_per_day, days_in_month}
use mytrackr_backend.Payments.Entities.{Plan, Subscription}
use mytrackr_backend.Payments.Store.{Store, find_latest, active_of, save}
use mytrackr_backend.Payments.Status.{set_past_due, plan_of}

-- Math.ceil(a / b) and Math.round(a / b)
unfoldable pub ceil_div : ℕ → ℕ → ℕ
ceil_div a b = (a + b - 1) / b

unfoldable pub round_div : ℕ → ℕ → ℕ
round_div a b = (2 * a + b) / (2 * b)

-- SubscriptionCheckoutPricing
pub record Pricing : Type 0 where
  pub amount_due : ℕ
  pub full_plan_price : ℕ
  pub prorated_credit : ℕ
  pub remaining_days : ℕ
  pub current_plan_daily_price : ℕ
  pub is_prorated_upgrade : Bool
  pub current_plan : Option Plan

abbrev pub base_pricing : Plan → Pricing
base_pricing target = record {
  amount_due = target.price;
  full_plan_price = target.price;
  prorated_credit = 0;
  remaining_days = 0;
  current_plan_daily_price = 0;
  is_prorated_upgrade = false;
  current_plan = none;
}

-- getSubscriptionBillingPeriodDays, for a row that ends at `end_at`
unfoldable pub billing_period_days : ℕ → Option ℕ → ℕ → ℕ
billing_period_days now none end_at = days_in_month now
billing_period_days now (some start) end_at =
    if ltb start end_at then max 1 (ceil_div (end_at - start) ms_per_day) else days_in_month now

unfoldable pub upgrade_pricing : (now : ℕ) → (target current : Plan) → Subscription → ℕ → Pricing
upgrade_pricing now target current a end_at =
    let days = billing_period_days now a.current_period_start end_at in
    let remaining = ceil_div (end_at - now) ms_per_day in
    let credit = round_div (current.price * remaining) days in
    if current.id == target.id || leb target.price current.price
    then base_pricing target
    else record {
      amount_due = target.price - credit;
      full_plan_price = target.price;
      prorated_credit = credit;
      remaining_days = remaining;
      current_plan_daily_price = round_div current.price days;
      is_prorated_upgrade = true;
      current_plan = some current;
    }

abbrev pub price_against : (now : ℕ) → Plan → Subscription → Store → Pricing × Store
price_against now target a s = elim a.current_period_end [
  | none ↦ (base_pricing target, s)
  | some end_at ↦
      if leb end_at now
      then (base_pricing target, save (set_past_due a) s)
      else elim (plan_of s a) [
        | none ↦ (base_pricing target, s)
        | some current ↦ (upgrade_pricing now target current a end_at, s)
      ]
]

-- calculateSubscriptionCheckoutPricing
unfoldable pub calculate_subscription_checkout_pricing :
    (user now : ℕ) → Plan → Store → Pricing × Store
calculate_subscription_checkout_pricing user now target s =
    elim (find_latest (active_of user) s.subscriptions) [
      | none ↦ (base_pricing target, s)
      | some a ↦ price_against now target a s
    ]
