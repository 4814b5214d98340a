-- ===== src/Integrations/Keys/Tests.antt =====
-- An integration of a subscriber: its key is used, exchanged and withdrawn.
use mytrackr_backend.Prelude.{ℕ, ◌≡◌, ◌≢◌, refl, true, false, none, some, List, [], ◌∷◌}
use mytrackr_backend.Prelude.Codes.{Codes, codes, codes_eq, starts_with}
use mytrackr_backend.Payments.Entities.{
  Integration, IntegrationPlatform, Plan, Value, Subscription, SubscriptionStatus,
  IntegrationBillingStatus,
}
use mytrackr_backend.Payments.Store.{Store, replace_integration, find_latest, find_plan}
use mytrackr_backend.Payments.Status.{
  get_user_subscription_status, activate_scheduled_if_due, report,
}
use mytrackr_backend.Access.Entitlements.{plan_has_capability, find_capability}
use mytrackr_backend.Integrations.Delivery.{status, deliver}
use mytrackr_backend.Integrations.Keys.{
  Partners, Outside, ok, find_integration, take, find_owned_integration, rotate_api_key, revoke,
  set_key, set_revoked, generate_secret_key,
}
use mytrackr_backend.Integrations.Keys.Requests.{
  user_has_capability, authenticate_api_key, set_used,
}
use mytrackr_backend.Integrations.Keys.Access.{
  IsAllowed, authenticate_api_key-IsAllowed, revoked_key_refused, rotated_key_replaced,
}

abbrev web_plan : Plan
web_plan = record {
  id = 1;
  name = "Web";
  slug = "web";
  price = 500000;
  currency = "NGN";
  interval = "monthly";
  features = [];
  capabilities = ("website_linking", Value.boolean true) ∷ [];
  is_active = true;
  gateway_plan_id = none;
}

abbrev subscriber : Subscription
subscriber = record {
  id = 1;
  user = 7;
  plan = some 1;
  status = SubscriptionStatus.active;
  gateway_subscription_id = none;
  gateway_customer_code = none;
  gateway_email_token = none;
  payment_authorization = none;
  current_period_start = some 0;
  current_period_end = some 100;
  cancel_at_period_end = false;
  canceled_at = none;
  created_at = 0;
}

abbrev subscribed : List Integration → Store
subscribed is = record {
  plans = web_plan ∷ [];
  users = 7 ∷ [];
  subscriptions = subscriber ∷ [];
  payments = [];
  integrations = is;
  integration_plans = [];
  next_id = 2;
  calls = [];
}

abbrev old_key : Codes
old_key = codes "mt_sk_0123456789abcdef"

abbrev shop : ℕ → Integration
shop id = record {
  id = id;
  user = 7;
  business = record { id = 3; name = "Shop"; currency = none };
  plan = none;
  name = "Shop";
  platform = IntegrationPlatform.react;
  public_key = "pk";
  api_key_prefix = codes "mt_sk_0123456789";
  api_key_hash = "mt_sk_0123456789abcdef";
  allowed_origins = [];
  redirect_url = none;
  webhook_url = none;
  is_active = true;
  billing_status = IntegrationBillingStatus.active;
  current_period_end = some 90;
  last_used_at = none;
}

abbrev partners : List Integration → Partners
partners is = record { store = subscribed is; logs = []; next_id = 9 }

-- A hash that tells the two keys apart
abbrev around : Outside
around = record {
  world = record { now = 50; post = λ _ _ _. status 204; secret = none; hmac = λ _ _. "" };
  secret = codes "fedcba9876543210";
  public_key = "0";
  hash = λ key. elim (codes_eq key old_key) [ true ↦ "mt_sk_0123456789abcdef" | false ↦ "new" ];
  text_of = λ _ _. "{}";
  delivery = "d";
}

abbrev used : Partners
used = partners (set_used 50 (shop 1) ∷ [])

allowed_lem :
    authenticate_api_key around old_key (partners (shop 1 ∷ [])) ≡ (ok (set_used 50 (shop 1)), used)
unfolding authenticate_api_key find_integration replace_integration take user_has_capability
    get_user_subscription_status activate_scheduled_if_due report find_latest find_plan
    plan_has_capability find_capability codes_eq starts_with
allowed_lem = refl

authenticate_api_key-IsAllowed_example :
    (r : Integration) × IsAllowed around old_key
      (partners (shop 1 ∷ []))
      (set_used 50 (shop 1))
      used
      r
authenticate_api_key-IsAllowed_example =
    authenticate_api_key-IsAllowed around old_key (partners (shop 1 ∷ [])) used
      (set_used 50 (shop 1)) allowed_lem

abbrev rotated : Integration
rotated = set_key around (shop 1)

rotated_lem :
    rotate_api_key around 7 1 (partners (shop 1 ∷ []))
    ≡ (ok (rotated, generate_secret_key around), partners (rotated ∷ []))
unfolding rotate_api_key find_owned_integration find_integration replace_integration
rotated_lem = refl

abbrev used_again : Partners
used_again = partners (set_used 50 rotated ∷ [])

new_key_lem :
    authenticate_api_key around (generate_secret_key around) (partners (rotated ∷ []))
    ≡ (ok (set_used 50 rotated), used_again)
unfolding authenticate_api_key find_integration replace_integration take user_has_capability
    get_user_subscription_status activate_scheduled_if_due report find_latest find_plan
    plan_has_capability find_capability codes_eq starts_with
new_key_lem = refl

rotated_key_replaced_example :
    around.hash (generate_secret_key around) ≡ around.hash (generate_secret_key around)
rotated_key_replaced_example =
    rotated_key_replaced around around 7 1 (generate_secret_key around) (partners (shop 1 ∷ []))
      (partners (rotated ∷ [])) used_again (set_used 50 rotated)
      (rotated, generate_secret_key around) rotated_lem new_key_lem refl

-- A second row, which has the key, stays when the first is revoked.
abbrev pair : Partners
pair = partners (shop 1 ∷ shop 2 ∷ [])

abbrev off : Integration
off = set_revoked (shop 1)

revoked_lem :
    revoke around 7 1 pair
    ≡ (ok tt, record { store = subscribed (off ∷ shop 2 ∷ []); logs = []; next_id = 10 })
unfolding revoke find_owned_integration find_integration replace_integration deliver
revoked_lem = refl

abbrev after_revoke : Partners
after_revoke = record { store = subscribed (off ∷ shop 2 ∷ []); logs = []; next_id = 10 }

abbrev after_use : Partners
after_use = record { store = subscribed (off ∷ set_used 50 (shop 2) ∷ []); logs = []; next_id = 10 }

second_lem :
    authenticate_api_key around old_key after_revoke ≡ (ok (set_used 50 (shop 2)), after_use)
unfolding authenticate_api_key find_integration replace_integration take user_has_capability
    get_user_subscription_status activate_scheduled_if_due report find_latest find_plan
    plan_has_capability find_capability codes_eq starts_with
second_lem = refl

revoked_key_refused_example : (set_used 50 (shop 2)).id ≢ 1
revoked_key_refused_example =
    revoked_key_refused around around 7 1 old_key pair after_revoke after_use (set_used 50 (shop 2))
      revoked_lem second_lem
