-- ===== src/Payments/Checkout.antt =====
-- src/payments/services/subscription.service.ts: starting a payment for a plan (initializeSubscription)
-- and for a further bank account. The institution service asks Mono over HTTP; the outcome of its
-- `assertSupported` is the argument `bank`. `reference` is the random reference of the new payment.
pub mod Row
pub mod Slots
mod Tests
use mytrackr_backend.Prelude.{
  ℕ, ◌+◌, ◌-◌, Bool, true, false, ◌&&◌, not, Option, none, some, String, List, [], ◌∷◌, str_eq, ltb,
  leb, any, or_else, is_some, if◌then◌else◌,
}
use mytrackr_backend.Prelude.Int.{ℤ, pos, negsuc}
use mytrackr_backend.Payments.Entities.{Plan, PaymentStatus, PaymentTransaction, Metadata}
use mytrackr_backend.Payments.Store.{
  Store, Call, find_plan, find_plan_by_slug, save_plan, insert_payment,
}
use mytrackr_backend.Payments.Status.{get_user_subscription_status}
use mytrackr_backend.Payments.Gateway.{Gateway}
use mytrackr_backend.Payments.Exec.{
  Exec, Result, ok, thrown, ◌>>=◌, ◌>>◌, pure, throw, gets, modify, run, require, require_some,
  bad_request, not_found, gateway_failure,
}
use mytrackr_backend.Payments.Provision.{answer}
use mytrackr_backend.Payments.Requests.{is_success, owned_by}
use mytrackr_backend.Payments.Pricing.{Pricing, calculate_subscription_checkout_pricing}
use mytrackr_backend.Access.Entitlements.{get_plan_bank_account_limit}

-- PLAN_SLUGS
abbrev pub plan_slugs : List String
plan_slugs = "basic" ∷ "starter" ∷ "web" ∷ "solo" ∷ "duo" ∷ "unlimited" ∷ []

-- resolveCheckoutPlanSlug
unfoldable pub resolve_checkout_plan_slug : (requested interval : String) → Result String
resolve_checkout_plan_slug requested interval =
    if any (λ k. str_eq k requested) plan_slugs
    then (if str_eq interval "annually"
        then thrown
            (bad_request "Annual billing is not available for the current subscription plans.")
        else ok requested)
    else thrown (bad_request "Invalid subscription plan")

abbrev pub lift : {A : Type 0} → Result A → Exec A
lift r s = (r, s)

-- gateway.createPlan
abbrev pub create_plan : Gateway → Plan → Result String × List Call
create_plan g plan = (
  elim (g.create_plan plan) [ none ↦ thrown gateway_failure | some code ↦ ok code ],
  Call.create_plan plan.name ∷ [],
)

-- A plan without a code is registered with the gateway first.
unfoldable pub register_plan : Gateway → Plan → Exec Plan
register_plan g plan = elim plan.gateway_plan_id [
  | some code ↦ pure plan
  | none ↦ do
    code ← answer (create_plan g plan)
    modify (save_plan (record plan { gateway_plan_id = some code }))
    pure (record plan { gateway_plan_id = some code })
]

-- The row of a checkout
abbrev pub checkout_row : (user : ℕ) → String → Plan → Pricing → PaymentTransaction
checkout_row user reference plan pricing = record {
  reference = reference;
  user = some user;
  amount = pricing.amount_due;
  status = PaymentStatus.pending;
  gateway_reference = none;
  payment_method = none;
  metadata = record {
    plan_id = some plan.id;
    kind = some "subscription_initialization";
    slots = some (pos 1);
    integration_id = none;
    integration_plan_id = none;
    is_prorated_upgrade = pricing.is_prorated_upgrade;
  };
}

-- gateway.initializePayment: the address and the reference that it answers
abbrev pub initialize_payment : Gateway → String → ℕ → Result (String × String) × List Call
initialize_payment g reference amount = (
  elim (g.initialize_payment reference amount) [ none ↦ thrown gateway_failure | some r ↦ ok r ],
  Call.initialize_payment reference amount ∷ [],
)

pub record Checkout : Type 0 where
  pub authorization_url : String
  pub reference : String
  pub pricing : Pricing
  pub currency : String

-- The requirements on a plan that is bought
unfoldable pub check_plan : (bank : Result (Unit {0})) → Plan → Exec (Unit {0})
check_plan bank plan = do
  require plan.is_active (bad_request "Plan is no longer active")
  require (ltb 0 plan.price) (bad_request "Free plans do not require payment initialization")
  (if ltb 0 (get_plan_bank_account_limit (some plan)) then lift bank else pure tt)

-- The answer of initializeSubscription, from what the gateway answers
abbrev pub checkout : Plan → Pricing → String × String → Checkout
checkout plan pricing (url, answered) = record {
  authorization_url = url;
  reference = answered;
  pricing = pricing;
  currency = plan.currency;
}

-- The payment is stored before the gateway is asked.
unfoldable pub start_payment :
    Gateway → (user : ℕ) → (reference : String) → Plan → Pricing → Exec Checkout
start_payment g user reference plan pricing = do
  modify (insert_payment (checkout_row user reference plan pricing))
  answered ← answer (initialize_payment g reference pricing.amount_due)
  pure (checkout plan pricing answered)

unfoldable pub pay_priced :
    Gateway → (user : ℕ) → (reference : String) → Plan → Pricing → Exec Checkout
pay_priced g user reference plan pricing = do
  require (ltb 0 pricing.amount_due)
      (bad_request "The prorated upgrade amount must be greater than zero")
  start_payment g user reference plan pricing

unfoldable pub pay_plan : Gateway → (now user : ℕ) → (reference : String) → Plan → Exec Checkout
pay_plan g now user reference plan = do
  pricing ← run (calculate_subscription_checkout_pricing user now plan)
  pay_priced g user reference plan pricing

unfoldable pub register_and_pay :
    Gateway → (now user : ℕ) → (reference : String) → Plan → Exec Checkout
register_and_pay g now user reference plan = do
  registered ← register_plan g plan
  pay_plan g now user reference registered

-- The steps of initializeSubscription once the plan is found
unfoldable pub checkout_plan :
    Gateway
    → (now user : ℕ) → (reference : String) → (bank : Result (Unit {0})) → Plan
    → Exec Checkout
checkout_plan g now user reference bank plan = do
  check_plan bank plan
  register_and_pay g now user reference plan

-- initializeSubscription
unfoldable pub initialize_subscription :
    Gateway
    → (now user : ℕ) → (slug interval : Option String) → (reference : String)
    → (bank : Result (Unit {0})) → Exec Checkout
initialize_subscription g now user slug interval reference bank = do
  planSlug ← lift (resolve_checkout_plan_slug (or_else slug "solo") (or_else interval "monthly"))
  found ← gets (λ s. find_plan_by_slug planSlug s.plans)
  plan ← require_some found (not_found "Subscription plan not found")
  checkout_plan g now user reference bank plan

-- updatePlanPrice
unfoldable pub update_plan_price : (plan new_price : ℕ) → Exec Plan
update_plan_price k new_price = do
  found ← gets (λ s. find_plan k s.plans)
  plan ← require_some found (not_found "Subscription plan not found")
  modify (save_plan (record plan { price = new_price }))
  pure (record plan { price = new_price })
