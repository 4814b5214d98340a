-- ===== src/Integrations/Keys/Requests.antt =====
-- src/integrations/services/integrations.service.ts: the checks of a request with an API key, and
-- the public configuration.
use mytrackr_backend.Prelude.{
  ℕ, Bool, true, false, ◌&&◌, not, Option, none, some, String, [], ◌∷◌, any, ltb, str_eq, is_some,
  if◌then◌else◌,
}
use mytrackr_backend.Prelude.Codes.{Codes, codes, codes_eq, starts_with}
use mytrackr_backend.Payments.Entities.{Integration, IntegrationBillingStatus}
use mytrackr_backend.Payments.Store.{Store, replace_integration}
use mytrackr_backend.Payments.Status.{SubscriptionState, get_user_subscription_status}
use mytrackr_backend.Access.Entitlements.{plan_has_capability}
use mytrackr_backend.Integrations.Keys.{
  not_found, unpaid, invalid_key, past_due, lacks_capability, origin_refused, Partners, Outside,
  Result, ok, thrown, find_integration, set_integrations, with_row, prefix_of, is_paid,
}

-- userHasCapability of the subscription service, on the status
abbrev pub allows : SubscriptionState → String → Bool
allows st capability =
    st.has_active_subscription
    && (is_some st.active_plan && plan_has_capability st.active_plan capability)

-- userHasCapability
unfoldable pub user_has_capability : (user now : ℕ) → String → Store → Bool × Store
user_has_capability user now capability s =
    let (st, s') = get_user_subscription_status user now s in (allows st capability, s')

abbrev pub has_prefix : Codes → Integration → Bool
has_prefix key i = codes_eq i.api_key_prefix (prefix_of key) && i.is_active

abbrev pub set_past_due : Integration → Integration
set_past_due i = record i { billing_status = IntegrationBillingStatus.past_due }

abbrev pub set_used : (now : ℕ) → Integration → Integration
set_used now i = record i { last_used_at = some now }

-- currentPeriodEnd && currentPeriodEnd < now
abbrev pub period_over : (now : ℕ) → Integration → Bool
period_over now i = elim i.current_period_end [ none ↦ false | some t ↦ ltb t now ]

abbrev pub use_integration :
    (now : ℕ) → Integration → Bool × Store → Partners → Result Integration × Partners
use_integration now i (false, store) s = (thrown lacks_capability, record s { store = store })
use_integration now i (true, store) s = (
  ok (set_used now i),
  record s {
    store = set_integrations (replace_integration (set_used now i) store.integrations) store;
  },
)

abbrev pub check_integration : (now : ℕ) → Integration → Partners → Result Integration × Partners
check_integration now i s =
    if is_paid i.billing_status
    then (if period_over now i
        then (thrown past_due, with_row (set_past_due i) s)
        else use_integration now i (user_has_capability i.user now "website_linking" s.store) s)
    else (thrown unpaid, s)

-- authenticateApiKey
unfoldable pub authenticate_api_key : Outside → Codes → Partners → Result Integration × Partners
authenticate_api_key o key s =
    if not (starts_with (codes "mt_sk_") key)
    then (thrown invalid_key, s)
    else elim (find_integration (has_prefix key) s.store.integrations) [
      | none ↦ (thrown invalid_key, s)
      | some i ↦
          if str_eq (o.hash key) i.api_key_hash
          then check_integration o.world.now i s
          else (thrown invalid_key, s)
    ]

-- assertOriginAllowed
unfoldable pub origin_allowed : Integration → Option String → Bool
origin_allowed i none = true
origin_allowed i (some origin) = elim i.allowed_origins [
  | [] ↦ true
  | first ∷ more ↦ any (λ a. str_eq a origin) (first ∷ more)
]

abbrev pub is_public : String → Integration → Bool
is_public key i = str_eq i.public_key key && i.is_active

-- getPublicConfig, up to the row that it shows
unfoldable pub get_public_config : String → Option String → Partners → Result Integration
get_public_config key origin s = elim (find_integration (is_public key) s.store.integrations) [
  | none ↦ thrown not_found
  | some i ↦ if origin_allowed i origin then ok i else thrown origin_refused
]
