-- ===== src/Payments/Provision.antt =====
-- src/payments/services/subscription.service.ts: what a verified payment does to the subscriptions
-- of its user (provisionSubscription and its helpers).
pub mod Sound
pub mod Keeps
pub mod Covered
pub mod Effects
pub mod Frame
pub mod Failure
use mytrackr_backend.Prelude.{
  ℕ, Bool, true, false, ◌&&◌, ◌||◌, not, Option, none, some, String, List, [], ◌∷◌, ◌++◌, ◌==◌,
  str_eq, if◌then◌else◌, is_some, or_else, or_option,
}
use mytrackr_backend.Calendar.{add_year, add_month, add_days}
use mytrackr_backend.Payments.Entities.{
  Plan, Authorization, Subscription, SubscriptionStatus, active, scheduled, canceled,
}
use mytrackr_backend.Payments.Store.{
  Store, Call, find_latest, active_of, scheduled_of, save, insert, find_plan, find_user,
}
use mytrackr_backend.Payments.Status.{runs_past, plan_of}
use mytrackr_backend.Payments.Gateway.{
  Codes, no_codes, PaymentSubscription, Gateway, extract_paystack_subscription_details,
  create_or_find_paystack_subscription,
}
use mytrackr_backend.Payments.Exec.{
  Exec, Result, ok, thrown, ◌>>=◌, ◌>>◌, pure, modify, gateway_failure,
}

-- calculatePeriodEnd
unfoldable pub calculate_period_end : ℕ → String → ℕ
calculate_period_end start interval =
    if str_eq interval "year" || (str_eq interval "annually" || str_eq interval "yearly")
    then add_year start
    else if str_eq interval "month" || str_eq interval "monthly"
    then add_month start
    else add_days 30 start

-- The arguments of provisionSubscription, with the plan that `planId` names.
pub record Purchase : Type 0 where
  pub user : ℕ
  pub plan : Plan
  pub customer_code : Option String
  pub authorization : Option Authorization
  pub payment : PaymentSubscription
  pub is_prorated_upgrade : Bool

abbrev pub log_calls : List Call → Store → Store
log_calls cs s = record s { calls = s.calls ++ cs }

-- A gateway call: its result, with the calls that were made
abbrev pub answer : {A : Type 0} → Result A × List Call → Exec A
answer (r, cs) s = (r, log_calls cs s)

abbrev authorization_code : Purchase → Option String
authorization_code p = elim p.authorization [ none ↦ none | some a ↦ a.authorization_code ]

-- Create a gateway subscription if the plan, the customer and the authorization are there.
unfoldable pub codes_by_creation : Gateway → Purchase → Codes × List Call
codes_by_creation g p = elim p.plan.gateway_plan_id [
  | none ↦ (no_codes, [])
  | some plan ↦ elim p.customer_code [
    | none ↦ (no_codes, [])
    | some customer ↦ elim (authorization_code p) [
      | none ↦ (no_codes, [])
      | some code ↦ create_or_find_paystack_subscription g customer plan code
    ]
  ]
]

-- The codes that the payment carries, or else those of a gateway subscription made now; an upgrade
-- makes its own later.
unfoldable pub initial_codes : Gateway → Purchase → Codes × List Call
initial_codes g p =
    let paid = extract_paystack_subscription_details p.payment in
    if is_some paid.subscription_code
    then (paid, [])
    else if p.is_prorated_upgrade
    then (no_codes, [])
    else codes_by_creation g p

-- The row that `create` makes; the id and the time of creation come with `save`.
abbrev pub new_row : Purchase → SubscriptionStatus → ℕ → Codes → Subscription
new_row p status start codes = record {
  id = 0;
  user = p.user;
  plan = some p.plan.id;
  status = status;
  gateway_subscription_id = codes.subscription_code;
  gateway_customer_code = p.customer_code;
  gateway_email_token = codes.email_token;
  payment_authorization = p.authorization;
  current_period_start = some start;
  current_period_end = some (calculate_period_end start p.plan.interval);
  cancel_at_period_end = false;
  canceled_at = none;
  created_at = 0;
}

-- An active row whose time is over is canceled.
abbrev pub cancel_row : ℕ → Subscription → Subscription
cancel_row now a = record a { status = canceled; canceled_at = some now }

-- The end of a row that has one
abbrev pub end_of : Subscription → ℕ
end_of a = or_else a.current_period_end 0

-- A renewal extends the active row.
abbrev pub renewed_row : ℕ → Purchase → Subscription → Codes → Subscription
renewed_row now p a codes = record a {
  plan = some p.plan.id;
  current_period_end =
      some (calculate_period_end (if p.is_prorated_upgrade then now else end_of a) p.plan.interval);
  gateway_subscription_id = or_option codes.subscription_code a.gateway_subscription_id;
  gateway_customer_code = or_option p.customer_code a.gateway_customer_code;
  gateway_email_token = or_option codes.email_token a.gateway_email_token;
  payment_authorization = or_option p.authorization a.payment_authorization;
  cancel_at_period_end = false;
  canceled_at = none;
  status = active;
}

-- repairPaystackSubscriptionCodeFromLookup: the row with the codes found, and the calls made
abbrev with_codes : Subscription → Option (Option Codes) → Subscription
with_codes a none = a
with_codes a (some none) = a
with_codes a (some (some c)) =
    if is_some c.subscription_code
    then record a {
      gateway_subscription_id = c.subscription_code;
      gateway_email_token = or_option c.email_token a.gateway_email_token;
    }
    else a

unfoldable pub repair_paystack_subscription_code_from_lookup :
    Gateway → Option Plan → Subscription → Subscription × List Call
repair_paystack_subscription_code_from_lookup g plan a = elim a.gateway_subscription_id [
  | some code ↦ (a, [])
  | none ↦ elim a.gateway_customer_code [
    | none ↦ (a, [])
    | some customer ↦ elim plan [
      | none ↦ (a, [])
      | some q ↦ elim q.gateway_plan_id [
        | none ↦ (a, [])
        | some code ↦ (
          with_codes a (g.find_subscription customer code),
          Call.find_subscription customer code ∷ [],
        )
      ]
    ]
  ]
]

-- disableSubscription, if the row has its code and its token; it may throw
unfoldable pub disable_gateway_subscription : Gateway → Subscription → Result (Unit {0}) × List Call
disable_gateway_subscription g a = elim a.gateway_subscription_id [
  | none ↦ (ok tt, [])
  | some code ↦ elim a.gateway_email_token [
    | none ↦ (ok tt, [])
    | some token ↦ (
      if g.disable_subscription code token then ok tt else thrown gateway_failure,
      Call.disable_subscription code token ∷ [],
    )
  ]
]

abbrev pub upgraded_row : ℕ → Subscription → Subscription
upgraded_row now a = record (cancel_row now a) { cancel_at_period_end = false }

-- The steps of an upgrade after the old gateway subscription is disabled
unfoldable pub finish_upgrade : Gateway → ℕ → Purchase → Subscription → Codes → Store → Store
finish_upgrade g now p a codes s =
    let (made, calls) =
      (if is_some codes.subscription_code then (codes, []) else codes_by_creation g p) in
    insert now (new_row p active now made) (log_calls calls (save (upgraded_row now a) s))

-- A prorated upgrade ends the active row and starts the new plan at once.
unfoldable pub upgrade : Gateway → ℕ → Purchase → Subscription → Codes → Exec (Unit {0})
upgrade g now p a codes s =
    let (a', calls) = repair_paystack_subscription_code_from_lookup g (plan_of s a) a in
    (do
      modify (λ t. save a' (log_calls calls t))
      answer (disable_gateway_subscription g a')
      modify (finish_upgrade g now p a' codes))
      s

-- A queued plan that is bought again, or replaced by another
abbrev pub requeued_row : Purchase → Subscription → Subscription → Codes → Subscription
requeued_row p a q codes = record q {
  plan = some p.plan.id;
  current_period_start = some (end_of a);
  current_period_end = some (calculate_period_end (end_of a) p.plan.interval);
  gateway_subscription_id = or_option codes.subscription_code q.gateway_subscription_id;
  gateway_customer_code = or_option p.customer_code q.gateway_customer_code;
  gateway_email_token = or_option codes.email_token q.gateway_email_token;
  payment_authorization = or_option p.authorization q.payment_authorization;
  cancel_at_period_end = false;
  canceled_at = none;
}

-- Another plan starts when the active one ends.
unfoldable pub queue_plan : ℕ → Purchase → Subscription → Codes → Store → Store
queue_plan now p a codes s = elim (find_latest (scheduled_of p.user) s.subscriptions) [
  | some q ↦ save (requeued_row p a q codes) s
  | none ↦ insert now (new_row p scheduled (end_of a) codes) s
]

abbrev pub same_plan : Purchase → Subscription → Bool
same_plan p a = elim a.plan [ none ↦ false | some k ↦ k == p.plan.id ]

-- The branches of provisionSubscription, on the active row that it has read
unfoldable pub settle : Gateway → ℕ → Purchase → Option Subscription → Codes → Exec (Unit {0})
settle g now p none codes = modify (insert now (new_row p active now codes))
settle g now p (some a) codes =
    if runs_past now a
    then (if same_plan p a
        then modify (save (renewed_row now p a codes))
        else if p.is_prorated_upgrade
        then upgrade g now p a codes
        else modify (queue_plan now p a codes))
    else modify (insert now (new_row p active now codes))

-- An active row whose time is over is canceled first.
abbrev pub close_ended : ℕ → Option Subscription → Store → Store
close_ended now none s = s
close_ended now (some a) s = if runs_past now a then s else save (cancel_row now a) s

unfoldable pub provision_plan : Gateway → ℕ → Purchase → Exec (Unit {0})
provision_plan g now p s =
    let existing = find_latest (active_of p.user) s.subscriptions in
    let (codes, calls) = initial_codes g p in
    settle g now p existing codes (log_calls calls (close_ended now existing s))

-- provisionSubscription: a payment for a plan or a user that is gone does nothing.
unfoldable pub provision_subscription :
    Gateway
    → ℕ
    → (user plan : ℕ) → (customer_code : Option String) → Option Authorization
    → PaymentSubscription
    → (is_prorated_upgrade : Bool) → Exec (Unit {0})
provision_subscription g now user plan customer auth payment up s = elim (find_plan plan s.plans) [
  | none ↦ (pure tt) s
  | some q ↦ elim (find_user user s.users) [
    | none ↦ (pure tt) s
    | some u ↦
        provision_plan g now
          (record {
            user = u;
            plan = q;
            customer_code = customer;
            authorization = auth;
            payment = payment;
            is_prorated_upgrade = up;
          })
          s
  ]
]
