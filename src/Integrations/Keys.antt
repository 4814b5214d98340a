-- ===== src/Integrations/Keys.antt =====
-- src/integrations/services/integrations.service.ts: the life of an integration and of its API key.
-- The random bytes, the SHA-256 of a key and the addresses of the front end are parameters.
pub mod Requests
pub mod Table
pub mod Access
mod Tests
use Prim.Native.String.{◌++◌ as ◌<>◌}
use mytrackr_backend.Prelude.{
  ℕ, zero, suc, ◌+◌, Bool, true, false, ◌&&◌, ◌||◌, not, Option, none, some, String, List, [], ◌∷◌,
  ◌++◌, map, any, ◌==◌, leb, ltb, str_eq, or_else, is_some, if◌then◌else◌,
}
use mytrackr_backend.Prelude.Codes.{Codes, codes, codes_eq, starts_with}
use mytrackr_backend.Payments.Entities.{
  Integration, IntegrationPlatform, Business, Plan, Subscription, IntegrationBillingStatus,
  is_active,
}
use mytrackr_backend.Payments.Store.{Store, active_of, find_latest, replace_integration}
use mytrackr_backend.Payments.Status.{
  SubscriptionState, get_user_subscription_status, plan_of, ended_before,
}
use mytrackr_backend.Access.Entitlements.{plan_has_capability}
use mytrackr_backend.Integrations.Delivery.{
  World, WebhookLog, IntegrationWebhookEvent, integration_created, integration_updated,
  integration_revoked, deliver,
}
use mytrackr_backend.Integrations.Entities.{outbound}

-- The store of the subscriptions and of the integrations, and the log of webhooks
pub record Partners : Type 0 where
  pub store : Store
  pub logs : List WebhookLog
  pub next_id : ℕ

-- The clock is that of the servers' world. `secret` and `public_key` are the texts of the random
-- bytes that are drawn next, `text_of` the data of a webhook.
pub record Outside : Type 0 where
  pub world : World
  pub secret : Codes
  pub public_key : String
  pub hash : Codes → String
  pub text_of : IntegrationWebhookEvent → Integration → String
  pub delivery : String

pub data KeyError : Type 0 where
  no_plan expired plan_lacks not_found unpaid invalid_key past_due lacks_capability origin_refused :
      KeyError

pub data Result (A : Type 0) : Type 0 where
  ok : A → Result A
  thrown : KeyError → Result A

unfoldable pub find_integration : (Integration → Bool) → List Integration → Option Integration
find_integration p [] = none
find_integration p (i ∷ is) = let later = find_integration p is in if p i then some i else later

abbrev pub set_integrations : List Integration → Store → Store
set_integrations is s = record s { integrations = is }

-- save of a row that was read
abbrev pub with_row : Integration → Partners → Partners
with_row r s = record s {
  store = set_integrations (replace_integration r s.store.integrations) s.store;
}

abbrev pub send : Outside → IntegrationWebhookEvent → Integration → Partners → Partners
send o event i s = record s {
  logs = deliver o.world s.next_id o.delivery (outbound i) event (o.text_of event i) s.logs;
  next_id = s.next_id + 1;
}

-- slice(0, 16)
unfoldable pub take : ℕ → Codes → Codes
take zero cs = []
take (suc n) [] = []
take (suc n) (c ∷ cs) = c ∷ take n cs

abbrev pub prefix_of : Codes → Codes
prefix_of key = take 16 key

-- generateSecretKey
abbrev pub generate_secret_key : Outside → Codes
generate_secret_key o = codes "mt_sk_" ++ o.secret

abbrev pub generate_public_key : Outside → String
generate_public_key o = "mt_pk_" <> o.public_key

-- The checks of getWebsiteIntegrationSubscription on the active row and its plan
abbrev pub check_subscription : (now : ℕ) → Subscription → Option Plan → Result Subscription
check_subscription now r none = thrown no_plan
check_subscription now r (some p) =
    if ended_before now r
    then thrown expired
    else if plan_has_capability (some p) "website_linking"
    then ok r
    else thrown plan_lacks

-- getWebsiteIntegrationSubscription
unfoldable pub get_website_integration_subscription : (now user : ℕ) → Store → Result Subscription
get_website_integration_subscription now user s =
    elim (find_latest (active_of user) s.subscriptions) [
      | none ↦ thrown no_plan
      | some r ↦ check_subscription now r (plan_of s r)
    ]

pub record CreateIntegrationDto : Type 0 where
  pub name : String
  pub platform : IntegrationPlatform
  pub allowed_origins : Option (List String)
  pub redirect_url : Option String
  pub webhook_url : Option String

abbrev pub new_integration :
    Outside
    → (id user : ℕ) → Business
    → CreateIntegrationDto
    → (period_end : Option ℕ) → Integration
new_integration o id user business dto period_end = record {
  id = id;
  user = user;
  business = business;
  plan = none;
  name = dto.name;
  platform = dto.platform;
  public_key = generate_public_key o;
  api_key_prefix = prefix_of (generate_secret_key o);
  api_key_hash = o.hash (generate_secret_key o);
  allowed_origins = or_else dto.allowed_origins [];
  redirect_url = dto.redirect_url;
  webhook_url = dto.webhook_url;
  is_active = true;
  billing_status = IntegrationBillingStatus.active;
  current_period_end = period_end;
  last_used_at = none;
}

abbrev pub insert_integration : Integration → Partners → Partners
insert_integration i s = record s {
  store = set_integrations (s.store.integrations ++ i ∷ []) s.store;
  next_id = s.next_id + 1;
}

abbrev created :
    Outside
    → (user : ℕ) → Business
    → CreateIntegrationDto
    → Result Subscription
    → Partners
    → Result (Integration × Codes) × Partners
created o user business dto (thrown e) s = (thrown e, s)
created o user business dto (ok r) s =
    let i = new_integration o s.next_id user business dto r.current_period_end in
    (ok (i, generate_secret_key o), send o integration_created i (insert_integration i s))

-- create, for the user's business
unfoldable pub create :
    Outside
    → (user : ℕ) → Business
    → CreateIntegrationDto
    → Partners
    → Result (Integration × Codes) × Partners
create o user business dto s =
    created o user business dto (get_website_integration_subscription o.world.now user s.store) s

abbrev pub owned_by : (user id : ℕ) → Integration → Bool
owned_by user id i = i.id == id && i.user == user

-- findOwnedIntegration
unfoldable pub find_owned_integration : (user id : ℕ) → Partners → Option Integration
find_owned_integration user id s = find_integration (owned_by user id) s.store.integrations

-- The fields of a request, where it has them
pub record UpdateIntegrationDto : Type 0 where
  pub name : Option String
  pub allowed_origins : Option (List String)
  pub redirect_url : Option String
  pub webhook_url : Option String
  pub is_active : Option Bool

abbrev given : {A : Type 0} → Option A → Option A → Option A
given none old = old
given (some a) old = some a

-- Object.assign(integration, dto)
abbrev pub assign : UpdateIntegrationDto → Integration → Integration
assign dto i = record i {
  name = or_else dto.name i.name;
  allowed_origins = or_else dto.allowed_origins i.allowed_origins;
  redirect_url = given dto.redirect_url i.redirect_url;
  webhook_url = given dto.webhook_url i.webhook_url;
  is_active = or_else dto.is_active i.is_active;
}

-- update
unfoldable pub update :
    Outside → (user id : ℕ) → UpdateIntegrationDto → Partners → Result Integration × Partners
update o user id dto s = elim (find_owned_integration user id s) [
  | none ↦ (thrown not_found, s)
  | some i ↦
      (ok (assign dto i), send o integration_updated (assign dto i) (with_row (assign dto i) s))
]

abbrev pub is_paid : IntegrationBillingStatus → Bool
is_paid IntegrationBillingStatus.active = true
is_paid _ = false

abbrev pub set_key : Outside → Integration → Integration
set_key o i = record i {
  api_key_prefix = prefix_of (generate_secret_key o);
  api_key_hash = o.hash (generate_secret_key o);
}

-- rotateApiKey
unfoldable pub rotate_api_key :
    Outside → (user id : ℕ) → Partners → Result (Integration × Codes) × Partners
rotate_api_key o user id s = elim (find_owned_integration user id s) [
  | none ↦ (thrown not_found, s)
  | some i ↦
      if is_paid i.billing_status
      then (ok (set_key o i, generate_secret_key o), with_row (set_key o i) s)
      else (thrown unpaid, s)
]

abbrev pub set_revoked : Integration → Integration
set_revoked i = record i { is_active = false }

-- revoke
unfoldable pub revoke : Outside → (user id : ℕ) → Partners → Result (Unit {0}) × Partners
revoke o user id s = elim (find_owned_integration user id s) [
  | none ↦ (thrown not_found, s)
  | some i ↦ (ok tt, send o integration_revoked (set_revoked i) (with_row (set_revoked i) s))
]
