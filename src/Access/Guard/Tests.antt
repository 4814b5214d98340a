-- ===== src/Access/Guard/Tests.antt =====
-- The guard on a user of the duo plan, with a route that asks for the solo plan and a capability.
use mytrackr_backend.Prelude.{◌≤◌, ◌≡◌, refl, true, false, none, some, [], ◌∷◌, arith}
use mytrackr_backend.Payments.Entities.{Plan, Value, Subscription, SubscriptionStatus}
use mytrackr_backend.Payments.Store.{Store, find_latest, find_plan}
use mytrackr_backend.Payments.Status.{
  get_user_subscription_status, activate_scheduled_if_due, report,
}
use mytrackr_backend.Payments.Exec.{ok}
use mytrackr_backend.Access.Entitlements.{
  PlanSlug, plan_has_access, plan_has_capability, normalize_plan_slug, normalize_required_plan,
  find_alias, lowers_to, lower_code, plan_rank, find_capability, get_plan_bank_account_limit,
  number_of, bank_account_limit_by_plan,
}
use mytrackr_backend.Access.Guard.{
  Requirements, RequestUser, can_activate, check, check_capabilities, check_plans,
}
use mytrackr_backend.Access.Guard.Passes.{can_activate_entitled}
use mytrackr_backend.Access.Guard.Entitled.{IsEntitled, can_activate-IsEntitled}

abbrev duo_plan : Plan
duo_plan = record {
  id = 1;
  name = "Pro+";
  slug = "Pro-Plus";
  price = 500000;
  currency = "NGN";
  interval = "monthly";
  features = "tax_estimator" ∷ [];
  capabilities = ("website_linking", Value.boolean true) ∷ [];
  is_active = true;
  gateway_plan_id = none;
}

abbrev subscriber : Subscription
subscriber = record {
  id = 1;
  user = 7;
  plan = some 1;
  status = SubscriptionStatus.active;
  gateway_subscription_id = none;
  gateway_customer_code = none;
  gateway_email_token = none;
  payment_authorization = none;
  current_period_start = some 0;
  current_period_end = some 100;
  cancel_at_period_end = false;
  canceled_at = none;
  created_at = 0;
}

abbrev subscribed : Store
subscribed = record {
  plans = duo_plan ∷ [];
  users = 7 ∷ [];
  subscriptions = subscriber ∷ [];
  payments = [];
  integrations = [];
  integration_plans = [];
  next_id = 2;
  calls = [];
}

abbrev route : Requirements
route = record {
  plans = some ("solo" ∷ []);
  capabilities = some ("website_linking" ∷ "tax_estimator" ∷ []);
}

abbrev member : RequestUser
member = record { id = 7; roles = some ("User" ∷ []) }

member_passes : (can_activate 50 route (some member) subscribed).0 ≡ ok tt
unfolding can_activate check check_capabilities check_plans get_user_subscription_status
    activate_scheduled_if_due report find_latest find_plan plan_has_access plan_has_capability
    normalize_plan_slug normalize_required_plan find_alias lowers_to lower_code plan_rank
    find_capability
member_passes = refl

can_activate-IsEntitled_example : IsEntitled route (get_user_subscription_status 7 50 subscribed).0
can_activate-IsEntitled_example =
    can_activate-IsEntitled 50 route member subscribed refl refl member_passes

can_activate_entitled_example : (can_activate 50 route (some member) subscribed).0 ≡ ok tt
can_activate_entitled_example =
    can_activate_entitled 50 route member subscribed
      (can_activate-IsEntitled 50 route member subscribed refl refl member_passes)

solo_known : normalize_required_plan "SOLO" ≡ some PlanSlug.solo
unfolding normalize_required_plan find_alias lowers_to lower_code
solo_known = refl

basic_known : normalize_required_plan "free" ≡ some PlanSlug.basic
unfolding normalize_required_plan find_alias lowers_to lower_code
basic_known = refl

basic_below : plan_rank PlanSlug.basic ≤ plan_rank PlanSlug.solo
unfolding plan_rank
basic_below = omega arith

duo_has_solo : plan_has_access (some duo_plan) "SOLO" ≡ true
unfolding plan_has_access normalize_plan_slug normalize_required_plan find_alias lowers_to
    lower_code plan_rank
duo_has_solo = refl

duo_limit : get_plan_bank_account_limit (some duo_plan) ≡ 2
unfolding get_plan_bank_account_limit number_of find_capability normalize_plan_slug find_alias
    lowers_to lower_code bank_account_limit_by_plan
duo_limit = refl
