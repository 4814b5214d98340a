-- ===== src/Integrations/Metrics.antt =====
-- src/integrations/services/integrations.service.ts: getMetrics, the figures of a partner's sales.
pub mod Totals
pub mod NetSales
mod Tests
use mytrackr_backend.Prelude.{
  ℕ, ◌+◌, ◌-◌, ◌*◌, ◌/◌, Bool, true, false, ◌&&◌, ◌||◌, Option, none, some, String, List, [], ◌∷◌,
  ◌==◌, ltb, leb, str_eq, length, keep, or_else, or_option, if◌then◌else◌,
}
use mytrackr_backend.Prelude.Int.{ℤ, pos, ◌-ℤ◌}
use mytrackr_backend.Prelude.Codes.{Codes, codes_eq}
use mytrackr_backend.Calendar.{day, year_of, month_of, week_day, month_begin}
use mytrackr_backend.Payments.Entities.{Integration}
use mytrackr_backend.Integrations.Entities.{
  IntegrationEvent, IntegrationEventItem, IntegrationEventType, order_paid, order_refunded,
  order_cancelled, payment_failed,
}
use mytrackr_backend.Integrations.Tally.{Group, tally, by_revenue}

-- A period: a day by its number, a week by that of its Sunday, a month by its year and number. The
-- code writes these as texts of dates.
pub data PeriodKey : Type 0 where
  day_key : ℕ → PeriodKey
  month_key : (year month : ℕ) → PeriodKey

pub data Period : Type 0 where
  daily weekly monthly : Period

abbrev pub same_period : PeriodKey → PeriodKey → Bool
same_period (day_key a) (day_key b) = a == b
same_period (month_key y m) (month_key z n) = y == z && m == n
same_period _ _ = false

-- periodKey
unfoldable pub period_key : (time : ℕ) → Period → PeriodKey
period_key t daily = day_key (day t)
period_key t weekly = day_key (day t - week_day (day t))
period_key t monthly = month_key (year_of (day t)) (month_of (day t))

abbrev pub is_paid : IntegrationEventType → Bool
is_paid order_paid = true
is_paid _ = false

abbrev pub is_refunded : IntegrationEventType → Bool
is_refunded order_refunded = true
is_refunded _ = false

abbrev pub is_failed : IntegrationEventType → Bool
is_failed payment_failed = true
is_failed _ = false

-- sum; amounts are whole hundredths, so the rounding changes nothing
abbrev pub sum_of : (IntegrationEvent → ℕ) → List IntegrationEvent → ℕ
sum_of f [] = 0
sum_of f (e ∷ es) = f e + sum_of f es

unfoldable pub tally_periods :
    Period → List IntegrationEvent → List (Group PeriodKey) → List (Group PeriodKey)
tally_periods p [] rows = rows
tally_periods p (e ∷ es) rows =
    tally_periods p es (tally same_period (period_key e.occurred_at p) e.amount 1 rows)

-- revenueByPeriod
unfoldable pub revenue_by_period : Period → List IntegrationEvent → List (Group PeriodKey)
revenue_by_period p events = tally_periods p events []

-- A product goes by its id, or by its name where it has none.
pub record ProductKey : Type 0 where
  pub product_id : Option String
  pub name : String

abbrev pub product_text : ProductKey → String
product_text k = or_else k.product_id k.name

abbrev pub same_product : ProductKey → ProductKey → Bool
same_product a b = str_eq (product_text a) (product_text b)

abbrev pub product_of : IntegrationEventItem → ProductKey
product_of i = record { product_id = i.product_id; name = i.name }

abbrev pub category_of : IntegrationEventItem → String
category_of i = or_else i.category "Uncategorised"

module _ {K : Type 0} (same : K → K → Bool) (key : IntegrationEventItem → K) where
  unfoldable pub tally_items : List IntegrationEventItem → List (Group K) → List (Group K)
  tally_items [] rows = rows
  tally_items (i ∷ is) rows = tally_items is (tally same (key i) i.total i.quantity rows)

  unfoldable pub tally_events : List IntegrationEvent → List (Group K) → List (Group K)
  tally_events [] rows = rows
  tally_events (e ∷ es) rows = tally_events es (tally_items e.items rows)

-- revenueByProduct
unfoldable pub revenue_by_product : List IntegrationEvent → List (Group ProductKey)
revenue_by_product events = by_revenue (tally_events same_product product_of events [])

-- revenueByCategory
unfoldable pub revenue_by_category : List IntegrationEvent → List (Group String)
revenue_by_category events = by_revenue (tally_events str_eq category_of events [])

-- The orders of each e-mail address that is there
unfoldable pub tally_customers : List IntegrationEvent → List (Group Codes) → List (Group Codes)
tally_customers [] rows = rows
tally_customers (e ∷ es) rows =
    tally_customers es
      (elim e.customer_email [ none ↦ rows | some email ↦ tally codes_eq email 0 1 rows ])

-- uniqueCustomers.size
unfoldable pub customer_count : List IntegrationEvent → ℕ
customer_count events = length (tally_customers events [])

-- repeatCustomerCount
unfoldable pub repeat_customer_count : List IntegrationEvent → ℕ
repeat_customer_count events = length (keep (λ g. ltb 1 g.quantity) (tally_customers events []))

pub record Metrics : Type 0 where
  pub start : ℕ
  pub end_at : ℕ
  pub gross_sales : ℕ
  pub refunds : ℕ
  pub net_sales : ℤ
  pub order_count : ℕ
  pub average_order_value : ℕ
  pub revenue_by_day : List (Group PeriodKey)
  pub revenue_by_week : List (Group PeriodKey)
  pub revenue_by_month : List (Group PeriodKey)
  pub revenue_by_product_row : List (Group ProductKey)
  pub revenue_by_category_row : List (Group String)
  pub customers : ℕ
  pub repeat_customers : ℕ
  pub failed_count : ℕ
  pub failed_amount : ℕ
  pub taxable_sales : ℕ
  pub payment_fees : ℕ

-- toFixed(2) of the average: to the next hundredth, halves up
abbrev average : (gross orders : ℕ) → ℕ
average g n = if ltb 0 n then (2 * g + n) / (2 * n) else 0

abbrev pub in_scope : (integration start end_at : ℕ) → IntegrationEvent → Bool
in_scope k start end_at e =
    e.integration == k && (leb start e.occurred_at && leb e.occurred_at end_at)

-- The order of the query: by occurredAt, and rows of one instant in the order of the table
unfoldable pub insert_by_time : IntegrationEvent → List IntegrationEvent → List IntegrationEvent
insert_by_time e [] = e ∷ []
insert_by_time e (d ∷ ds) =
    let rest = insert_by_time e ds in
    if leb e.occurred_at d.occurred_at then e ∷ d ∷ ds else d ∷ rest

unfoldable pub by_time : List IntegrationEvent → List IntegrationEvent
by_time [] = []
by_time (e ∷ es) = insert_by_time e (by_time es)

abbrev pub of_type : (IntegrationEventType → Bool) → IntegrationEvent → Bool
of_type p e = p e.event

unfoldable pub metrics_of : (start end_at : ℕ) → List IntegrationEvent → Metrics
metrics_of start end_at scoped =
    let paid = keep (of_type is_paid) scoped in
    let refunded = keep (of_type is_refunded) scoped in
    let failed = keep (of_type is_failed) scoped in
    record {
      start = start;
      end_at = end_at;
      gross_sales = sum_of (λ e. e.amount) paid;
      refunds = sum_of (λ e. e.amount) refunded;
      net_sales =
          pos (sum_of (λ e. e.amount) paid)
          -ℤ pos (sum_of (λ e. e.amount) refunded)
          -ℤ pos (sum_of (λ e. e.payment_fee) paid);
      order_count = length paid;
      average_order_value = average (sum_of (λ e. e.amount) paid) (length paid);
      revenue_by_day = revenue_by_period daily paid;
      revenue_by_week = revenue_by_period weekly paid;
      revenue_by_month = revenue_by_period monthly paid;
      revenue_by_product_row = revenue_by_product paid;
      revenue_by_category_row = revenue_by_category paid;
      customers = customer_count paid;
      repeat_customers = repeat_customer_count paid;
      failed_count = length failed;
      failed_amount = sum_of (λ e. e.amount) failed;
      taxable_sales = sum_of (λ e. e.tax_amount) paid;
      payment_fees = sum_of (λ e. e.payment_fee) paid;
    }

-- A bound of the query, if it is given: its instant, or none where it is no date
abbrev pub bound : Option (Option ℕ) → (default : ℕ) → Option ℕ
bound none default = some default
bound (some t) default = t

-- getMetrics; `none` where a bound is no date, which throws
unfoldable pub get_metrics :
    (now : ℕ)
    → Integration
    → (start_date end_date : Option (Option ℕ)) → List IntegrationEvent
    → Option Metrics
get_metrics now i start_date end_date events = elim (bound start_date (month_begin now)) [
  | none ↦ none
  | some start ↦ elim (bound end_date now) [
    | none ↦ none
    | some end_at ↦
        some (metrics_of start end_at (keep (in_scope i.id start end_at) (by_time events)))
  ]
]
