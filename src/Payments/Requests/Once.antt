-- ===== src/Payments/Requests/Once.antt =====
-- A payment that a webhook has confirmed is never handled again.
use mytrackr_backend.Prelude.{
  ℕ, ◌≡◌, ◌∙◌, ap, refl, true, false, some, String, List, [], ◌∷◌, ◌++◌, Option-cases, Bool-cases,
  inl, inr, str_eq_iff, arith,
}
use mytrackr_backend.Payments.Entities.{PaymentTransaction}
use mytrackr_backend.Payments.Store.{
  Store, Call, find_payment, replace_payment, save_payment, save_integration,
}
use mytrackr_backend.Payments.Gateway.{Gateway, Verification}
use mytrackr_backend.Payments.Exec.{ok, store_bind_pure}
use mytrackr_backend.Payments.Provision.Frame.{provision_subscription-payments}
use mytrackr_backend.Payments.Requests.{
  verify_payment, activate_paid_integration, activate_paid, is_integration_payment, is_charge,
  is_success, webhook_confirmed, succeeded, fulfil, handle_charge, handle_webhook, WebhookEvent,
  processed,
}

reference_of_found :
    (k : String) (rows : List PaymentTransaction) (tx : PaymentTransaction)
    → find_payment k rows ≡ some tx
    → tx.reference ≡ k
unfolding find_payment
reference_of_found k [] tx h = cc
reference_of_found k (p ∷ rows) tx h =
    ground (arith, str_eq_iff p.reference k, reference_of_found k rows tx)

find_payment-replace_payment :
    (k : String) (rows : List PaymentTransaction) (tx r : PaymentTransaction)
    → find_payment k rows ≡ some tx
    → r.reference ≡ tx.reference
    → find_payment k (replace_payment r rows) ≡ some r
unfolding find_payment replace_payment
find_payment-replace_payment k [] tx r h e = cc
find_payment-replace_payment k (p ∷ rows) tx r h e = ground (
  arith,
  str_eq_iff p.reference k,
  str_eq_iff p.reference r.reference,
  str_eq_iff r.reference k,
  find_payment-replace_payment k rows tx r,
  reference_of_found k (p ∷ rows) tx h,
)

activate_paid_integration-payments :
    (now i p : ℕ) (s : Store) → (activate_paid_integration now i p s).payments ≡ s.payments
unfolding activate_paid_integration save_integration
activate_paid_integration-payments now i p s = ground arith

activate_paid-payments :
    (now : ℕ) (tx : PaymentTransaction) (s : Store) → (activate_paid now tx s).payments ≡ s.payments
unfolding activate_paid
activate_paid-payments now tx s = elim (Bool-cases (is_integration_payment tx)) [
  | inr other ↦ simp (other, activate_paid)
  | inl integration ↦ elim (Option-cases tx.metadata.integration_id) [
    | inl gone ↦ simp (integration, gone, activate_paid)
    | inr (i, e) ↦ elim (Option-cases tx.metadata.integration_plan_id) [
      | inl gone ↦ simp (integration, e, gone, activate_paid)
      | inr (p, f) ↦
          simp (integration, e, f, activate_paid) (activate_paid_integration-payments now i p s)
    ]
  ]
]

fulfil-payments :
    (g : Gateway) (now : ℕ) (v : Verification) (tx : PaymentTransaction) (s : Store)
    → (fulfil g now v tx s).1.payments ≡ s.payments
unfolding fulfil
fulfil-payments g now v tx s = elim (Option-cases tx.metadata.plan_id) [
  | inl other ↦ simp (other, fulfil) (activate_paid-payments now tx s)
  | inr (plan, bought) ↦ elim (Option-cases tx.user) [
    | inl gone ↦ simp (bought, gone, fulfil)
    | inr (u, known) ↦
        simp (bought, known, fulfil) (provision_subscription-payments g now u plan _ _ _ _ s)
  ]
]

-- A verified charge records its payment as a success, whatever happens after.
handle_charge-payments :
    (g : Gateway) (now : ℕ) (tx : PaymentTransaction) (v : Verification) (s : Store)
    → g.verify_payment tx.reference ≡ some v
    → is_success v.status ≡ true
    → (handle_charge g now tx s).1.payments ≡ replace_payment (webhook_confirmed v tx) s.payments
unfolding handle_charge verify_payment save_payment
handle_charge-payments g now tx v s verified good =
    let s' =
      save_payment (webhook_confirmed v tx)
        (record s { calls = s.calls ++ Call.verify_payment tx.reference ∷ [] }) in
    simp (verified, good)
      (ap (λ (t : Store). t.payments) (store_bind_pure (fulfil g now v tx) succeeded s')
        ∙ fulfil-payments g now v tx s')

module _ (g : Gateway) (now : ℕ) (e : WebhookEvent) (s : Store) (tx : PaymentTransaction)
    (charge : is_charge e ≡ true) (found : find_payment e.reference s.payments ≡ some tx) where
  webhook_open :
      is_success tx.status ≡ false → handle_webhook g now (some e) s ≡ handle_charge g now tx s
  unfolding handle_webhook
  webhook_open fresh = simp (charge, found, fresh, handle_webhook)

  webhook_done : is_success tx.status ≡ true → handle_webhook g now (some e) s ≡ (ok processed, s)
  unfolding handle_webhook
  webhook_done done = simp (charge, found, done, handle_webhook)

-- Where a charge webhook for a payment that is no success yet finds that the gateway calls it one, the
-- same event delivered again right after, with no other request in between, answers `processed` and
-- changes nothing, whatever the gateway says by then and whenever it comes. This holds whether the
-- first delivery returned or threw after it had recorded the payment.
pub handle_webhook_once :
    (g : Gateway) (now : ℕ) (e : WebhookEvent) (s : Store) (tx : PaymentTransaction)
    (v : Verification) (g' : Gateway) (now' : ℕ)
    → is_charge e ≡ true
    → find_payment e.reference s.payments ≡ some tx
    → is_success tx.status ≡ false
    → g.verify_payment tx.reference ≡ some v
    → is_success v.status ≡ true
    → handle_webhook g' now' (some e) (handle_webhook g now (some e) s).1
      ≡ (ok processed, (handle_webhook g now (some e) s).1)
handle_webhook_once g now e s tx v g' now' charge found fresh verified good =
    let s' = (handle_charge g now tx s).1 in
    let found' : find_payment e.reference s'.payments ≡ some (webhook_confirmed v tx) =
      rw (handle_charge-payments g now tx v s verified good) (
        find_payment-replace_payment e.reference s.payments tx (webhook_confirmed v tx) found
          refl) in
    rw (webhook_open g now e s tx charge found fresh)
      (webhook_done g' now' e s' (webhook_confirmed v tx) charge found' refl)
