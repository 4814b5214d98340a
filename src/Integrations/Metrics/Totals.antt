-- ===== src/Integrations/Metrics/Totals.antt =====
-- The tables of the figures add up to the sales that they are about.
use mathlib.Core.Path.{subst}
use mytrackr_backend.Prelude.{
  ℕ, ◌+◌, ◌≡◌, refl, Bool, Option, none, some, List, [], ◌∷◌, arith, length, keep, str_eq,
  Option-cases, inl, inr,
}
use mytrackr_backend.Calendar.{month_begin}
use mytrackr_backend.Payments.Entities.{Integration}
use mytrackr_backend.Integrations.Entities.{IntegrationEvent, IntegrationEventItem}
use mytrackr_backend.Integrations.Tally.{Group, tally}
use mytrackr_backend.Integrations.Tally.Sums.{
  total, total_revenue-tally, total_quantity-tally, total-by_revenue, Falls, by_revenue-Falls,
}
use mytrackr_backend.Integrations.Metrics.{
  PeriodKey, Period, daily, weekly, monthly, same_period, period_key, is_paid, sum_of,
  tally_periods, revenue_by_period, same_product, product_of, category_of, tally_items,
  tally_events, revenue_by_product, revenue_by_category, Metrics, in_scope, of_type, by_time,
  metrics_of, get_metrics, bound,
}

tally_periods_total :
    (p : Period) (es : List IntegrationEvent) (rows : List (Group PeriodKey))
    → (total (λ g. g.revenue) (tally_periods p es rows)
        ≡ total (λ g. g.revenue) rows + sum_of (λ e. e.amount) es)
      × (total (λ g. g.quantity) (tally_periods p es rows)
          ≡ total (λ g. g.quantity) rows + length es)
unfolding tally_periods
tally_periods_total p [] rows = (omega arith, omega arith)
tally_periods_total p (e ∷ es) rows =
    let k = period_key e.occurred_at p in
    let (money, orders) = tally_periods_total p es (tally same_period k e.amount 1 rows) in
    (
      omega (arith, money, total_revenue-tally same_period k e.amount 1 rows),
      omega (arith, orders, total_quantity-tally same_period k e.amount 1 rows),
    )

-- The revenues and the orders of a table add up to these.
abbrev pub AddsUp : {K : Type 0} → (revenue quantity : ℕ) → List (Group K) → Type 0
AddsUp r n rows = (total (λ g. g.revenue) rows ≡ r) × (total (λ g. g.quantity) rows ≡ n)

revenue_by_period-AddsUp :
    (p : Period) (es : List IntegrationEvent)
    → AddsUp (sum_of (λ e. e.amount) es) (length es) (revenue_by_period p es)
unfolding revenue_by_period
revenue_by_period-AddsUp p es =
    let (money, orders) = tally_periods_total p es [] in
    (omega (arith, money), omega (arith, orders))

-- The total and the quantity of the items of events
abbrev pub items_of : (IntegrationEventItem → ℕ) → List IntegrationEventItem → ℕ
items_of f [] = 0
items_of f (i ∷ is) = f i + items_of f is

abbrev pub sold : (IntegrationEventItem → ℕ) → List IntegrationEvent → ℕ
sold f = sum_of (λ e. items_of f e.items)

module _ {K : Type 0} (same : K → K → Bool) (key : IntegrationEventItem → K) where
  tally_items_total :
      (is : List IntegrationEventItem) (rows : List (Group K))
      → AddsUp
          (total (λ g. g.revenue) rows + items_of (λ i. i.total) is)
          (total (λ g. g.quantity) rows + items_of (λ i. i.quantity) is)
          (tally_items same key is rows)
  unfolding tally_items
  tally_items_total [] rows = (omega arith, omega arith)
  tally_items_total (i ∷ is) rows =
      let (money, pieces) = tally_items_total is (tally same (key i) i.total i.quantity rows) in
      (
        omega (arith, money, total_revenue-tally same (key i) i.total i.quantity rows),
        omega (arith, pieces, total_quantity-tally same (key i) i.total i.quantity rows),
      )

  tally_events_total :
      (es : List IntegrationEvent) (rows : List (Group K))
      → AddsUp
          (total (λ g. g.revenue) rows + sold (λ i. i.total) es)
          (total (λ g. g.quantity) rows + sold (λ i. i.quantity) es)
          (tally_events same key es rows)
  unfolding tally_events
  tally_events_total [] rows = (omega arith, omega arith)
  tally_events_total (e ∷ es) rows =
      let (money, pieces) = tally_items_total e.items rows in
      let (later_money, later_pieces) = tally_events_total es (tally_items same key e.items rows) in
      (omega (arith, later_money, money), omega (arith, later_pieces, pieces))

revenue_by_product-AddsUp :
    (es : List IntegrationEvent)
    → AddsUp (sold (λ i. i.total) es) (sold (λ i. i.quantity) es) (revenue_by_product es)
unfolding revenue_by_product
revenue_by_product-AddsUp es =
    let rows = tally_events same_product product_of es [] in
    let (money, pieces) = tally_events_total same_product product_of es [] in
    (
      omega (arith, money, total-by_revenue (λ g. g.revenue) rows),
      omega (arith, pieces, total-by_revenue (λ g. g.quantity) rows),
    )

revenue_by_category-AddsUp :
    (es : List IntegrationEvent)
    → AddsUp (sold (λ i. i.total) es) (sold (λ i. i.quantity) es) (revenue_by_category es)
unfolding revenue_by_category
revenue_by_category-AddsUp es =
    let rows = tally_events str_eq category_of es [] in
    let (money, pieces) = tally_events_total str_eq category_of es [] in
    (
      omega (arith, money, total-by_revenue (λ g. g.revenue) rows),
      omega (arith, pieces, total-by_revenue (λ g. g.quantity) rows),
    )

-- The paid events of an integration in a period
abbrev pub paid_in : (integration start end_at : ℕ) → List IntegrationEvent → List IntegrationEvent
paid_in k start end_at es = keep (of_type is_paid) (keep (in_scope k start end_at) (by_time es))

-- The figures add up: the tables by period to the gross sales and the count of orders, the tables
-- by product and by category to the totals and quantities of the items, these in falling order.
pub record IsBrokenDown (paid : List IntegrationEvent) (m : Metrics) : Type 0 where
  pub orders : m.order_count ≡ length paid
  pub days : AddsUp m.gross_sales m.order_count m.revenue_by_day
  pub weeks : AddsUp m.gross_sales m.order_count m.revenue_by_week
  pub months : AddsUp m.gross_sales m.order_count m.revenue_by_month
  pub products :
      AddsUp (sold (λ i. i.total) paid) (sold (λ i. i.quantity) paid) m.revenue_by_product_row
  pub categories :
      AddsUp (sold (λ i. i.total) paid) (sold (λ i. i.quantity) paid) m.revenue_by_category_row
  pub product_order : Falls m.revenue_by_product_row
  pub category_order : Falls m.revenue_by_category_row

metrics_of-IsBrokenDown :
    (start end_at : ℕ) (scoped : List IntegrationEvent)
    → IsBrokenDown (keep (of_type is_paid) scoped) (metrics_of start end_at scoped)
unfolding metrics_of revenue_by_product revenue_by_category
metrics_of-IsBrokenDown start end_at scoped =
    let paid = keep (of_type is_paid) scoped in
    record {
      orders = refl;
      days = revenue_by_period-AddsUp daily paid;
      weeks = revenue_by_period-AddsUp weekly paid;
      months = revenue_by_period-AddsUp monthly paid;
      products = revenue_by_product-AddsUp paid;
      categories = revenue_by_category-AddsUp paid;
      product_order = by_revenue-Falls (tally_events same_product product_of paid []);
      category_order = by_revenue-Falls (tally_events str_eq category_of paid []);
    }

not_some : (m : Metrics) → none ≡ some m → ⊥
not_some m h = cc

-- The figures carry their bounds.
from_bounds :
    (s t : ℕ) (scoped : ℕ → ℕ → List IntegrationEvent) (m : Metrics)
    → some (metrics_of s t (scoped s t)) ≡ some m
    → metrics_of m.start m.end_at (scoped m.start m.end_at) ≡ m
unfolding metrics_of
from_bounds s t scoped m h =
    let e : metrics_of s t (scoped s t) ≡ m = cc in
    subst (λ x. metrics_of x.start x.end_at (scoped x.start x.end_at) ≡ x) e refl

-- The figures that are answered are those of their own period.
pub get_metrics-eq-some :
    (now : ℕ) (i : Integration) (from to : Option (Option ℕ)) (es : List IntegrationEvent)
    (m : Metrics)
    → get_metrics now i from to es ≡ some m
    → metrics_of m.start m.end_at (keep (in_scope i.id m.start m.end_at) (by_time es)) ≡ m
unfolding get_metrics
get_metrics-eq-some now i from to es m h = elim (Option-cases (bound from (month_begin now))) [
  | inl e ↦ absurd (not_some m (rw (e, get_metrics) at h))
  | inr (s, e) ↦ elim (Option-cases (bound to now)) [
    | inl f ↦ absurd (not_some m (rw f at (rw (e, get_metrics) at h)))
    | inr (t, f) ↦
        from_bounds s t (λ a b. keep (in_scope i.id a b) (by_time es)) m
          (rw f at (rw (e, get_metrics) at h))
  ]
]

-- Figures that are answered are broken down truly: the revenues and orders by day, by week and by
-- month each add up to the gross sales and the count of orders, the revenues and quantities by
-- product and by category each to those of the items that were paid, and products and categories
-- stand in falling order of revenue.
pub get_metrics-IsBrokenDown :
    (now : ℕ) (i : Integration) (from to : Option (Option ℕ)) (es : List IntegrationEvent)
    (m : Metrics)
    → get_metrics now i from to es ≡ some m
    → IsBrokenDown (paid_in i.id m.start m.end_at es) m
get_metrics-IsBrokenDown now i from to es m h =
    subst (IsBrokenDown (paid_in i.id m.start m.end_at es))
      (get_metrics-eq-some now i from to es m h)
      (metrics_of-IsBrokenDown m.start m.end_at
        (keep (in_scope i.id m.start m.end_at) (by_time es)))
