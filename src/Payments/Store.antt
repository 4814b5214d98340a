-- ===== src/Payments/Store.antt =====
-- The repositories as one store of rows. `save` of a row that was read writes it over the row with
-- its id; `save` of a row made by `create` adds it, under a new id and with the time as `createdAt`.
pub mod Rows
pub mod Sound
use mytrackr_backend.Prelude.{
  ℕ, ◌+◌, Bool, true, false, ◌&&◌, Option, none, some, String, List, [], ◌∷◌, ◌++◌, map, ◌==◌, leb,
  str_eq, if◌then◌else◌,
}
use mytrackr_backend.Payments.Entities.{
  Plan, Subscription, PaymentTransaction, Integration, IntegrationPlan, is_active, is_scheduled,
}

-- The calls that the program makes to the gateway, in order.
pub data Call : Type 0 where
  create_subscription : (customer plan authorization : String) → Call
  find_subscription : (customer plan : String) → Call
  disable_subscription : (code token : String) → Call
  verify_payment : (reference : String) → Call
  create_plan : (name : String) → Call
  initialize_payment : (reference : String) (amount : ℕ) → Call
  update_link : (code : Option String) → Call

pub record Store : Type 0 where
  pub plans : List Plan
  pub users : List ℕ
  pub subscriptions : List Subscription
  pub payments : List PaymentTransaction
  pub integrations : List Integration
  pub integration_plans : List IntegrationPlan
  pub next_id : ℕ
  pub calls : List Call

unfoldable pub find_plan : ℕ → List Plan → Option Plan
find_plan k [] = none
find_plan k (p ∷ ps) = if p.id == k then some p else find_plan k ps

unfoldable pub find_plan_by_slug : String → List Plan → Option Plan
find_plan_by_slug k [] = none
find_plan_by_slug k (p ∷ ps) = if str_eq p.slug k then some p else find_plan_by_slug k ps

unfoldable pub find_user : ℕ → List ℕ → Option ℕ
find_user k [] = none
find_user k (u ∷ us) = if u == k then some u else find_user k us

unfoldable pub find_payment : String → List PaymentTransaction → Option PaymentTransaction
find_payment k [] = none
find_payment k (p ∷ ps) = if str_eq p.reference k then some p else find_payment k ps

unfoldable pub find_integration : ℕ → List Integration → Option Integration
find_integration k [] = none
find_integration k (i ∷ is) = if i.id == k then some i else find_integration k is

unfoldable pub find_integration_plan : ℕ → List IntegrationPlan → Option IntegrationPlan
find_integration_plan k [] = none
find_integration_plan k (i ∷ is) = if i.id == k then some i else find_integration_plan k is

unfoldable pub replace_integration : Integration → List Integration → List Integration
replace_integration r [] = []
replace_integration r (i ∷ is) = (if i.id == r.id then r else i) ∷ replace_integration r is

unfoldable pub save_integration : Integration → Store → Store
save_integration r s = record s { integrations = replace_integration r s.integrations }

-- findOne with `order: { createdAt: 'DESC' }`
abbrev newer : Subscription → Option Subscription → Option Subscription
newer s none = some s
newer s (some t) = if leb t.created_at s.created_at then some s else some t

unfoldable pub find_latest : (Subscription → Bool) → List Subscription → Option Subscription
find_latest p [] = none
find_latest p (s ∷ ss) = let rest = find_latest p ss in if p s then newer s rest else rest

-- findOne with `order: { currentPeriodStart: 'ASC' }`; a row without a start comes last, as in SQL
abbrev pub starts_before : Option ℕ → Option ℕ → Bool
starts_before none none = true
starts_before none (some b) = false
starts_before (some a) none = true
starts_before (some a) (some b) = leb a b

abbrev earlier : Subscription → Option Subscription → Option Subscription
earlier s none = some s
earlier s (some t) =
    if starts_before s.current_period_start t.current_period_start then some s else some t

unfoldable pub find_earliest : (Subscription → Bool) → List Subscription → Option Subscription
find_earliest p [] = none
find_earliest p (s ∷ ss) = let rest = find_earliest p ss in if p s then earlier s rest else rest

unfoldable pub find_subscription_by_id : ℕ → List Subscription → Option Subscription
find_subscription_by_id k = find_latest (λ s. s.id == k)

abbrev pub active_of : ℕ → Subscription → Bool
active_of u s = s.user == u && is_active s.status

abbrev pub scheduled_of : ℕ → Subscription → Bool
scheduled_of u s = s.user == u && is_scheduled s.status

unfoldable pub replace : Subscription → List Subscription → List Subscription
replace r [] = []
replace r (s ∷ ss) = (if s.id == r.id then r else s) ∷ replace r ss

-- save of a row that was read
unfoldable pub save : Subscription → Store → Store
save r s = record s { subscriptions = replace r s.subscriptions }

-- save of a new row
unfoldable pub insert : ℕ → Subscription → Store → Store
insert now r s = record s {
  subscriptions = s.subscriptions ++ (record r { id = s.next_id; created_at = now }) ∷ [];
  next_id = s.next_id + 1;
}

unfoldable pub replace_payment :
    PaymentTransaction → List PaymentTransaction → List PaymentTransaction
replace_payment r [] = []
replace_payment r (p ∷ ps) =
    (if str_eq p.reference r.reference then r else p) ∷ replace_payment r ps

-- save of a transaction that was read
unfoldable pub save_payment : PaymentTransaction → Store → Store
save_payment r s = record s { payments = replace_payment r s.payments }

-- save of a new transaction
unfoldable pub insert_payment : PaymentTransaction → Store → Store
insert_payment r s = record s { payments = s.payments ++ r ∷ [] }

unfoldable pub replace_plan : Plan → List Plan → List Plan
replace_plan r [] = []
replace_plan r (p ∷ ps) = (if p.id == r.id then r else p) ∷ replace_plan r ps

unfoldable pub save_plan : Plan → Store → Store
save_plan r s = record s { plans = replace_plan r s.plans }
