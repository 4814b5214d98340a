-- ===== src/Payments/Requests/Sound.antt =====
-- The requests keep the invariant of the subscriptions table, whatever the gateway answers.
use mathlib.Core.List.{Memᴰ}
use mytrackr_backend.Prelude.{
  ℕ, refl, Option, none, some, String, List, Option-cases, Bool-cases, inl, inr, if_both, str_eq,
  arith,
}
use mytrackr_backend.Payments.Entities.{PaymentTransaction, Subscription, Integration}
use mytrackr_backend.Payments.Store.{
  Store, Call, find_payment, save_payment, save_integration, find_latest, active_of,
  find_integration, find_integration_plan,
}
use mytrackr_backend.Payments.Store.Rows.{find_latest-some}
use mytrackr_backend.Payments.Store.Sound.{IsSound}
use mytrackr_backend.Payments.Status.{get_user_subscription_status}
use mytrackr_backend.Payments.Status.Verdict.{get_user_subscription_status-IsTrue}
use mytrackr_backend.Payments.Gateway.{Gateway, Verification}
use mytrackr_backend.Payments.Exec.{Result, modify, run, Result-cases}
use mytrackr_backend.Payments.Exec.Keeps.{Keeps, Keeps-pure, Keeps-throw, Keeps-if, Keeps-bind}
use mytrackr_backend.Payments.Provision.{answer, log_calls, disable_gateway_subscription}
use mytrackr_backend.Payments.Provision.Sound.{log_calls-IsSound, save-IsSound_of_Tame}
use mytrackr_backend.Payments.Provision.Keeps.{provision_subscription-IsSound}
use mytrackr_backend.Payments.Requests.{
  verify_with_gateway, verify_found, verify_subscription_payment, provision_verified, owned_by,
  activate_paid_integration, activate_paid, is_integration_payment, is_charge, mark_to_cancel,
  fulfil, handle_charge, handle_webhook, WebhookEvent, cancel_subscription, marked_to_cancel,
  is_success,
}

answer-IsSound : {A : Type 0} (r : Result A × List Call) → Keeps IsSound (answer r)
answer-IsSound r = record { at = λ s h. log_calls-IsSound r.1 s h }

save_payment-IsSound : (tx : PaymentTransaction) → Keeps IsSound (modify (save_payment tx))
unfolding save_payment
save_payment-IsSound tx = record {
  at = λ s h. record {
    unique = h.unique;
    below = h.below;
    one_active = h.one_active;
    one_scheduled = h.one_scheduled;
  };
}

status-IsSound : (user now : ℕ) → Keeps IsSound (run (get_user_subscription_status user now))
status-IsSound user now = record {
  at = λ s h. (get_user_subscription_status-IsTrue user now s h).sound;
}

provision_verified-IsSound :
    (g : Gateway) (now user plan : ℕ) (v : Verification) (tx : PaymentTransaction)
    → Keeps IsSound (provision_verified g now user plan v tx)
provision_verified-IsSound g now user plan v tx = record {
  at = λ s h. provision_subscription-IsSound g now user plan _ _ _ _ s h;
}

ruleset sound_rules = (
  Keeps-pure, Keeps-throw, Keeps-if, Keeps-bind, answer-IsSound, save_payment-IsSound,
  status-IsSound, provision_verified-IsSound,
)

verify_with_gateway-IsSound :
    (g : Gateway) (now user plan : ℕ) (tx : PaymentTransaction)
    → Keeps IsSound (verify_with_gateway g now user plan tx)
unfolding verify_with_gateway
verify_with_gateway-IsSound g now user plan tx = search sound_rules depth 12

verify_found-IsSound :
    (g : Gateway) (now user plan : ℕ) (tx : PaymentTransaction)
    → Keeps IsSound (verify_found g now user plan tx)
unfolding verify_found
verify_found-IsSound g now user plan tx = search (sound_rules, verify_with_gateway-IsSound) depth 8

pub verify_subscription_payment-IsSound :
    (g : Gateway) (now user : ℕ) (reference : String) (s : Store)
    → IsSound s
    → IsSound (verify_subscription_payment g now user reference s).1
unfolding verify_subscription_payment
verify_subscription_payment-IsSound g now user reference s h =
    elim (Bool-cases (str_eq reference "")) [
      | inl empty ↦ rw empty h
      | inr given ↦ elim (Option-cases (find_payment reference s.payments)) [
        | inl gone ↦ simp (given, gone, verify_subscription_payment) h
        | inr (tx, found) ↦ elim (Bool-cases (owned_by user tx)) [
          | inr other ↦ simp (given, found, other, verify_subscription_payment) h
          | inl own ↦ elim (Option-cases tx.metadata.plan_id) [
            | inl missing ↦ simp (given, found, own, missing, verify_subscription_payment) h
            | inr (plan, bought) ↦
                simp (given, found, own, bought, verify_subscription_payment)
                  ((verify_found-IsSound g now user plan tx).at s h)
          ]
        ]
      ]
    ]

save_integration-IsSound :
    (i : Integration) (s : Store) → IsSound s → IsSound (save_integration i s)
unfolding save_integration
save_integration-IsSound i s h = record {
  unique = h.unique;
  below = h.below;
  one_active = h.one_active;
  one_scheduled = h.one_scheduled;
}

activate_paid_integration-IsSound :
    (now i p : ℕ) (s : Store) → IsSound s → IsSound (activate_paid_integration now i p s)
unfolding activate_paid_integration
activate_paid_integration-IsSound now i p s h =
    elim (Option-cases (find_integration i s.integrations)) [
      | inl gone ↦ rw (gone, activate_paid_integration) h
      | inr (r, found) ↦ elim (Option-cases (find_integration_plan p s.integration_plans)) [
        | inl gone ↦ rw (found, gone, activate_paid_integration) h
        | inr (q, known) ↦
            rw (found, known, activate_paid_integration) (save_integration-IsSound _ s h)
      ]
    ]

activate_paid-IsSound :
    (now : ℕ) (tx : PaymentTransaction) (s : Store) → IsSound s → IsSound (activate_paid now tx s)
unfolding activate_paid
activate_paid-IsSound now tx s h = elim (Bool-cases (is_integration_payment tx)) [
  | inr other ↦ simp (other, activate_paid) h
  | inl integration ↦ elim (Option-cases tx.metadata.integration_id) [
    | inl gone ↦ simp (integration, gone, activate_paid) h
    | inr (i, e) ↦ elim (Option-cases tx.metadata.integration_plan_id) [
      | inl gone ↦ simp (integration, e, gone, activate_paid) h
      | inr (p, f) ↦
          simp (integration, e, f, activate_paid) (activate_paid_integration-IsSound now i p s h)
    ]
  ]
]

fulfil-IsSound :
    (g : Gateway) (now : ℕ) (v : Verification) (tx : PaymentTransaction)
    → Keeps IsSound (fulfil g now v tx)
unfolding fulfil
fulfil-IsSound g now v tx = record { at = at }
  where
    at : (s : Store) → IsSound s → IsSound (fulfil g now v tx s).1
    at s h = elim (Option-cases tx.metadata.plan_id) [
      | inl other ↦ simp (other, fulfil) (activate_paid-IsSound now tx s h)
      | inr (plan, bought) ↦ elim (Option-cases tx.user) [
        | inl gone ↦ simp (bought, gone, fulfil) h
        | inr (u, known) ↦
            simp (bought, known, fulfil) ((provision_verified-IsSound g now u plan v tx).at s h)
      ]
    ]

handle_charge-IsSound :
    (g : Gateway) (now : ℕ) (tx : PaymentTransaction) → Keeps IsSound (handle_charge g now tx)
unfolding handle_charge
handle_charge-IsSound g now tx = search (sound_rules, fulfil-IsSound) depth 8

-- The part of cancelSubscription that cancels
cancel_row-IsSound :
    (g : Gateway) (now : ℕ) (a : Subscription) (s : Store)
    → IsSound s
    → Memᴰ a s.subscriptions
    → IsSound (mark_to_cancel g now a s).1
unfolding mark_to_cancel
cancel_row-IsSound g now a s h m =
    let (r, cs) = disable_gateway_subscription g a in
    let logged = log_calls-IsSound cs s h in
    elim (Result-cases r) [
      | inl (x, done) ↦ rw done (
          save-IsSound_of_Tame (log_calls cs s) a (marked_to_cancel now a) logged m
            (refl, λ v. omega arith, λ v. omega arith))
      | inr (f, failed) ↦ rw failed logged
    ]

pub handle_webhook-IsSound :
    (g : Gateway) (now : ℕ) (e : Option WebhookEvent) (s : Store)
    → IsSound s
    → IsSound (handle_webhook g now e s).1
unfolding handle_webhook
handle_webhook-IsSound g now none s h = h
handle_webhook-IsSound g now (some e) s h = elim (Bool-cases (is_charge e)) [
  | inr other ↦ simp (other, handle_webhook) h
  | inl charge ↦ elim (Option-cases (find_payment e.reference s.payments)) [
    | inl gone ↦ simp (charge, gone, handle_webhook) h
    | inr (tx, found) ↦ elim (Bool-cases (is_success tx.status)) [
      | inl done ↦ simp (charge, found, done, handle_webhook) h
      | inr open_yet ↦
          simp (charge, found, open_yet, handle_webhook) ((handle_charge-IsSound g now tx).at s h)
    ]
  ]
]

pub cancel_subscription-IsSound :
    (g : Gateway) (now user : ℕ) (s : Store)
    → IsSound s
    → IsSound (cancel_subscription g now user s).1
unfolding cancel_subscription
cancel_subscription-IsSound g now user s h =
    elim (Option-cases (find_latest (active_of user) s.subscriptions)) [
      | inl gone ↦ rw (gone, cancel_subscription) h
      | inr (a, found) ↦
          let (m, act) = find_latest-some (active_of user) s.subscriptions a found in
          rw (found, cancel_subscription)
            (if_both (λ (x : Result Subscription × Store). IsSound x.1) a.cancel_at_period_end _ _
              (λ _. h) (λ _. cancel_row-IsSound g now a s h m))
    ]
