-- ===== src/Payments/Provision/Frame.antt =====
-- Provisioning writes subscriptions only: the payments stay as they are.
use mytrackr_backend.Prelude.{
  ℕ, ◌≡◌, ◌∙◌, refl, Bool, Option, none, some, String, Option-cases, inl, inr, if_both,
  if◌then◌else◌,
}
use mytrackr_backend.Payments.Entities.{Subscription, Authorization, active}
use mytrackr_backend.Payments.Store.{
  Store, save, insert, find_latest, scheduled_of, find_plan, find_user, active_of,
}
use mytrackr_backend.Payments.Status.{plan_of, runs_past}
use mytrackr_backend.Payments.Gateway.{Gateway, Codes, PaymentSubscription}
use mytrackr_backend.Payments.Exec.{Exec, Result-cases, modify}
use mytrackr_backend.Payments.Provision.{
  Purchase, log_calls, close_ended, disable_gateway_subscription, finish_upgrade, upgrade,
  queue_plan, repair_paystack_subscription_code_from_lookup, settle, provision_plan,
  provision_subscription, initial_codes, same_plan, renewed_row, new_row, cancel_row,
}

module _ (g : Gateway) (now : ℕ) (p : Purchase) where
  upgrade-payments :
      (a : Subscription) (codes : Codes) (s : Store)
      → (upgrade g now p a codes s).1.payments ≡ s.payments
  unfolding upgrade finish_upgrade save insert
  upgrade-payments a codes s =
      let (a', calls) = repair_paystack_subscription_code_from_lookup g (plan_of s a) a in
      elim (Result-cases (disable_gateway_subscription g a').0) [
        | inl (x, done) ↦ rw done
        | inr (f, failed) ↦ rw failed
      ]

  queue_plan-payments :
      (a : Subscription) (codes : Codes) (s : Store)
      → (queue_plan now p a codes s).payments ≡ s.payments
  unfolding queue_plan save insert
  queue_plan-payments a codes s =
      elim (Option-cases (find_latest (scheduled_of p.user) s.subscriptions)) [
        | inl free ↦ rw (free, queue_plan)
        | inr (q, found) ↦ rw (found, queue_plan)
      ]

  settle-payments :
      (existing : Option Subscription) (codes : Codes) (s : Store)
      → (settle g now p existing codes s).1.payments ≡ s.payments
  unfolding settle save insert
  settle-payments none codes s = refl
  settle-payments (some a) codes s =
      let P = λ (x : Exec (Unit {0})). (x s).1.payments ≡ s.payments in
      let fresh = modify (insert now (new_row p active now codes)) in
      let renew = modify (save (renewed_row now p a codes)) in
      let up = upgrade g now p a codes in
      let queue = modify (queue_plan now p a codes) in
      let rest = (if p.is_prorated_upgrade then up else queue) in
      if_both P (runs_past now a) (if same_plan p a then renew else rest) fresh
        (λ _.
          if_both P (same_plan p a) renew rest (λ _. refl)
            (λ _.
              if_both P p.is_prorated_upgrade up queue (λ _. upgrade-payments a codes s)
                (λ _. queue_plan-payments a codes s)))
        (λ _. refl)

  payments-close_ended :
      (existing : Option Subscription) (s : Store)
      → (close_ended now existing s).payments ≡ s.payments
  unfolding save
  payments-close_ended none s = refl
  payments-close_ended (some a) s =
      if_both (λ (t : Store). t.payments ≡ s.payments) (runs_past now a) s
        (save (cancel_row now a) s) (λ _. refl) (λ _. refl)

  provision_plan-payments : (s : Store) → (provision_plan g now p s).1.payments ≡ s.payments
  unfolding provision_plan
  provision_plan-payments s =
      let (codes, calls) = initial_codes g p in
      let existing = find_latest (active_of p.user) s.subscriptions in
      settle-payments existing codes (log_calls calls (close_ended now existing s))
      ∙ payments-close_ended existing s

pub provision_subscription-payments :
    (g : Gateway) (now user plan : ℕ) (customer : Option String) (auth : Option Authorization)
    (payment : PaymentSubscription) (up : Bool) (s : Store)
    → (provision_subscription g now user plan customer auth payment up s).1.payments ≡ s.payments
unfolding provision_subscription
provision_subscription-payments g now user plan customer auth payment up s =
    elim (Option-cases (find_plan plan s.plans)) [
      | inl gone ↦ rw (gone, provision_subscription)
      | inr (q, found) ↦ elim (Option-cases (find_user user s.users)) [
        | inl gone ↦ rw (found, gone, provision_subscription)
        | inr (u, known) ↦
            rw (found, known, provision_subscription) (provision_plan-payments g now _ s)
      ]
    ]
