-- ===== src/Payments/Requests/Answer.antt =====
-- What verifySubscriptionPayment answers where it returns.
use mytrackr_backend.Prelude.{
  ℕ, ◌≡◌, refl, true, false, some, List, [], ◌∷◌, Option-cases, Bool-cases, inl, inr, arith,
}
use mytrackr_backend.Payments.Entities.{Subscription, PaymentTransaction, Plan}
use mytrackr_backend.Payments.Store.{Store, Call, find_plan, find_user, save_payment}
use mytrackr_backend.Payments.Store.Sound.{IsSound}
use mytrackr_backend.Payments.Status.{get_user_subscription_status, runs_past, ended_before}
use mytrackr_backend.Payments.Status.Verdict.{running_again}
use mytrackr_backend.Payments.Gateway.{Gateway}
use mytrackr_backend.Payments.Exec.{Result, ok, Result-cases}
use mytrackr_backend.Payments.Provision.{log_calls}
use mytrackr_backend.Payments.Provision.Effects.{provision_subscription-IsCovered}
use mytrackr_backend.Payments.Provision.Covered.{IsCovered}
use mytrackr_backend.Payments.Provision.Keeps.{provision_subscription-IsSound}
use mytrackr_backend.Payments.Requests.{
  verify_payment, verify_with_gateway, provision_verified, Verified, confirmed, is_success,
}

ended_of_runs : (now : ℕ) (r : Subscription) → runs_past now r ≡ true → ended_before now r ≡ false
ended_of_runs now r h = ground arith

-- A covered user's status is active.
status-IsCovered :
    (u now : ℕ) (s : Store)
    → IsSound s
    → IsCovered u now s
    → (get_user_subscription_status u now s).0.has_active_subscription ≡ true
status-IsCovered u now s h c =
    rw (running_again u now c.row s h c.stored c.is_active (ended_of_runs now c.row c.runs)) refl

save_payment-IsSound :
    (tx : PaymentTransaction) (cs : List Call) (s : Store)
    → IsSound s
    → IsSound (save_payment tx (log_calls cs s))
unfolding save_payment
save_payment-IsSound tx cs s h = record {
  unique = h.unique;
  below = h.below;
  one_active = h.one_active;
  one_scheduled = h.one_scheduled;
}

-- From a sound table, where the gateway is asked whether a payment succeeded, and the request then
-- returns, for a plan and a user that exist, its answer says that the user has an active subscription. That is so
-- whatever the payment's own status was, and whatever the user's subscriptions were.
pub verify_with_gateway_active :
    (g : Gateway) (now user plan : ℕ) (tx : PaymentTransaction) (s : Store) (q : Plan)
    (r : Verified)
    → IsSound s
    → find_plan plan s.plans ≡ some q
    → find_user user s.users ≡ some user
    → (verify_with_gateway g now user plan tx s).0 ≡ ok r
    → r.subscription.has_active_subscription ≡ true
unfolding verify_with_gateway verify_payment save_payment
verify_with_gateway_active g now user plan tx s q r h found known returned =
    elim (Option-cases (g.verify_payment tx.reference)) [
      | inl refused ↦ (let no = (simp refused at returned) in cc)
      | inr (v, e) ↦ elim (Bool-cases (is_success v.status)) [
        | inr bad ↦ (let no = (simp (e, bad) at returned) in cc)
        | inl good ↦
            let s' =
              save_payment (confirmed v tx) (log_calls (Call.verify_payment tx.reference ∷ []) s) in
            let done = (simp (e, good) at returned) in
            elim (Result-cases (provision_verified g now user plan v tx s').0) [
              | inr (f, failed) ↦ (let no = (simp failed at done) in cc)
              | inl (x, paid) ↦
                  let s'' = (provision_verified g now user plan v tx s').1 in
                  let sound' =
                    save_payment-IsSound (confirmed v tx) (Call.verify_payment tx.reference ∷ []) s
                      h in
                  let sound =
                    provision_subscription-IsSound g now user plan v.customer_code v.authorization
                      v.subscription tx.metadata.is_prorated_upgrade s' sound' in
                  let covered =
                    provision_subscription-IsCovered g now user plan v.customer_code v.authorization
                      v.subscription tx.metadata.is_prorated_upgrade s' q user sound' found known
                      paid in
                  let active = status-IsCovered user now s'' sound covered in
                  let answer : ◌≡◌ {A = Result Verified}
                      (ok (record {
                        reference = v.reference;
                        subscription = (get_user_subscription_status user now s'').0;
                      }))
                      (ok r) =
                    (simp paid at done) in
                  cc
            ]
      ]
    ]
