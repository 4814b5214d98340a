-- ===== src/Payments/Requests.antt =====
-- src/payments/services/subscription.service.ts: the requests that verify a payment, take a gateway
-- webhook and cancel a subscription.
pub mod Sound
pub mod Once
pub mod Answer
use mytrackr_backend.Prelude.{
  ℕ, Bool, true, false, ◌&&◌, ◌||◌, not, Option, none, some, String, List, [], ◌∷◌, ◌==◌, str_eq,
  if◌then◌else◌, or_else, or_option,
}
use mytrackr_backend.Calendar.{add_year, add_month}
use mytrackr_backend.Payments.Entities.{
  Subscription, PaymentStatus, PaymentTransaction, Integration, IntegrationPlan,
  IntegrationBillingStatus,
}
use mytrackr_backend.Payments.Store.{
  Store, Call, find_latest, active_of, save, find_payment, save_payment, find_integration,
  find_integration_plan, save_integration,
}
use mytrackr_backend.Payments.Status.{SubscriptionState, get_user_subscription_status}
use mytrackr_backend.Payments.Gateway.{Gateway, Verification}
use mytrackr_backend.Payments.Exec.{
  Exec, Result, ok, thrown, ◌>>=◌, ◌>>◌, pure, throw, gets, modify, run, require, bad_request,
  gateway_failure, type_error,
}
use mytrackr_backend.Payments.Provision.{
  answer, provision_subscription, disable_gateway_subscription,
}

abbrev pub is_success : PaymentStatus → Bool
is_success PaymentStatus.success = true
is_success _ = false

-- gateway.verifyPayment
unfoldable pub verify_payment : Gateway → String → Result Verification × List Call
verify_payment g reference = (
  elim (g.verify_payment reference) [ none ↦ thrown gateway_failure | some v ↦ ok v ],
  Call.verify_payment reference ∷ [],
)

abbrev pub provision_verified :
    Gateway → (now user plan : ℕ) → Verification → PaymentTransaction → Exec (Unit {0})
provision_verified g now user plan v tx =
    provision_subscription g now user plan v.customer_code v.authorization v.subscription
      tx.metadata.is_prorated_upgrade

-- The answer of verifySubscriptionPayment: its `status` is 'success' wherever it returns.
pub record Verified : Type 0 where
  pub reference : String
  pub subscription : SubscriptionState

-- The row of a payment that the gateway calls a success
abbrev pub confirmed : Verification → PaymentTransaction → PaymentTransaction
confirmed v tx = record tx {
  status = PaymentStatus.success;
  gateway_reference = or_option v.gateway_reference tx.gateway_reference;
  payment_method = some (or_else (or_option v.channel tx.payment_method) "unknown");
}

-- `Payment verification returned ${verification.status}`, of a status that is no success
abbrev not_successful : PaymentStatus → String
not_successful PaymentStatus.failed = "Payment verification returned failed"
not_successful _ = "Payment verification returned pending"

-- The part of verifySubscriptionPayment that asks the gateway
unfoldable pub verify_with_gateway :
    Gateway → (now user plan : ℕ) → PaymentTransaction → Exec Verified
verify_with_gateway g now user plan tx = do
  v ← answer (verify_payment g tx.reference)
  (if is_success v.status then pure tt else do
    modify (save_payment (record tx { status = v.status }))
    throw (bad_request (not_successful v.status)))
  modify (save_payment (confirmed v tx))
  provision_verified g now user plan v tx
  subscription ← run (get_user_subscription_status user now)
  pure (record { reference = v.reference; subscription = subscription })

abbrev pub owned_by : ℕ → PaymentTransaction → Bool
owned_by user tx = elim tx.user [ none ↦ false | some u ↦ u == user ]

-- A payment that is recorded as a success is not asked for again while its user is subscribed.
unfoldable pub verify_found : Gateway → (now user plan : ℕ) → PaymentTransaction → Exec Verified
verify_found g now user plan tx =
    if is_success tx.status
    then (do
      subscription ← run (get_user_subscription_status user now)
      if subscription.has_active_subscription
          then pure (record { reference = tx.reference; subscription = subscription })
          else verify_with_gateway g now user plan tx)
    else verify_with_gateway g now user plan tx

-- verifySubscriptionPayment
unfoldable pub verify_subscription_payment : Gateway → (now user : ℕ) → String → Exec Verified
verify_subscription_payment g now user reference s =
    if str_eq reference ""
    then (thrown (bad_request "Payment reference is required"), s)
    else elim (find_payment reference s.payments) [
      | none ↦ (thrown (bad_request "Payment reference was not found"), s)
      | some tx ↦
          if owned_by user tx
          then elim tx.metadata.plan_id [
            | none ↦
                (thrown (bad_request "Payment reference is not for a subscription checkout"), s)
            | some plan ↦ verify_found g now user plan tx s
          ]
          else (thrown (bad_request "Payment reference was not found"), s)
    ]

abbrev pub billed_until : ℕ → IntegrationPlan → ℕ
billed_until now plan =
    if str_eq plan.interval "annually" || str_eq plan.interval "yearly"
    then add_year now
    else add_month now

-- activatePaidIntegration
unfoldable pub activate_paid_integration : (now integration plan : ℕ) → Store → Store
activate_paid_integration now integration plan s =
    elim (find_integration integration s.integrations) [
      | none ↦ s
      | some i ↦ elim (find_integration_plan plan s.integration_plans) [
        | none ↦ s
        | some p ↦
            save_integration
              (record i {
                plan = some p.id;
                billing_status = IntegrationBillingStatus.active;
                current_period_end = some (billed_until now p);
                is_active = true;
              })
              s
      ]
    ]

pub data WebhookReply : Type 0 where
  ignored processed succeeded : WebhookReply

-- A webhook as the gateway parses it
pub record WebhookEvent : Type 0 where
  pub event : String
  pub reference : String

abbrev pub is_integration_payment : PaymentTransaction → Bool
is_integration_payment tx = elim tx.metadata.kind [
  | none ↦ false
  | some k ↦ str_eq k "integration_api_key_subscription"
]

unfoldable pub activate_paid : ℕ → PaymentTransaction → Store → Store
activate_paid now tx s =
    if is_integration_payment tx
    then elim tx.metadata.integration_id [
      | none ↦ s
      | some i ↦ elim tx.metadata.integration_plan_id [
        | none ↦ s
        | some p ↦ activate_paid_integration now i p s
      ]
    ]
    else s

-- What a payment buys: a plan, or an integration
unfoldable pub fulfil : Gateway → ℕ → Verification → PaymentTransaction → Exec (Unit {0})
fulfil g now v tx = elim tx.metadata.plan_id [
  | none ↦ modify (activate_paid now tx)
  | some plan ↦ elim tx.user [
    | none ↦ throw type_error
    | some u ↦ provision_verified g now u plan v tx
  ]
]

-- The row of a payment that a webhook confirms
abbrev pub webhook_confirmed : Verification → PaymentTransaction → PaymentTransaction
webhook_confirmed v tx = record tx {
  status = PaymentStatus.success;
  gateway_reference = v.gateway_reference;
  payment_method = some (or_else v.channel "unknown");
}

unfoldable pub handle_charge : Gateway → ℕ → PaymentTransaction → Exec WebhookReply
handle_charge g now tx = do
  v ← answer (verify_payment g tx.reference)
  (if is_success v.status
      then (do modify (save_payment (webhook_confirmed v tx)); fulfil g now v tx)
      else modify (save_payment (record tx { status = PaymentStatus.failed })))
  pure succeeded

abbrev pub is_charge : WebhookEvent → Bool
is_charge e = str_eq e.event "charge.success" || str_eq e.event "payment_intent.succeeded"

-- handleWebhook; `none` is a webhook whose signature is invalid
unfoldable pub handle_webhook : Gateway → ℕ → Option WebhookEvent → Exec WebhookReply
handle_webhook g now none s = (ok ignored, s)
handle_webhook g now (some e) s =
    if is_charge e
    then elim (find_payment e.reference s.payments) [
      | none ↦ (ok processed, s)
      | some tx ↦ if is_success tx.status then (ok processed, s) else handle_charge g now tx s
    ]
    else (ok succeeded, s)

abbrev pub marked_to_cancel : ℕ → Subscription → Subscription
marked_to_cancel now a = record a { cancel_at_period_end = true; canceled_at = some now }

unfoldable pub mark_to_cancel : Gateway → ℕ → Subscription → Exec Subscription
mark_to_cancel g now a = do
  answer (disable_gateway_subscription g a)
  modify (save (marked_to_cancel now a))
  pure (marked_to_cancel now a)

-- cancelSubscription: the row that it answers with
unfoldable pub cancel_subscription : Gateway → (now user : ℕ) → Exec Subscription
cancel_subscription g now user s = elim (find_latest (active_of user) s.subscriptions) [
  | none ↦ (thrown (bad_request "No active subscription found"), s)
  | some a ↦ if a.cancel_at_period_end then (ok a, s) else mark_to_cancel g now a s
]
