-- ===== src/Payments/Provision/Effects.antt =====
-- What a payment does to the time that its user has, branch by branch.
use mathlib.Core.List.{Memᴰ}
use mytrackr_backend.Prelude.{
  ℕ, ◌≡◌, inl, inr, refl, Bool, true, false, Option, none, some, List, Bool-cases, Option-cases,
  arith, String, if_both, if◌then◌else◌,
}
use mytrackr_backend.Payments.Entities.{Subscription, Plan, active, scheduled, Authorization}
use mytrackr_backend.Payments.Store.{
  Store, active_of, scheduled_of, save, insert, find_latest, find_plan, find_user, Call,
}
use mytrackr_backend.Payments.Store.Rows.{find_latest-some}
use mytrackr_backend.Payments.Store.Sound.{IsSound}
use mytrackr_backend.Payments.Status.{runs_past, plan_of}
use mytrackr_backend.Payments.Gateway.{Gateway, Codes, PaymentSubscription}
use mytrackr_backend.Payments.Exec.{Exec, modify, Result, Result-cases, ok, thrown}
use mytrackr_backend.Payments.Provision.Sound.{log_calls-IsSound}
use mytrackr_backend.Payments.Provision.{
  Purchase, log_calls, new_row, cancel_row, renewed_row, requeued_row,
  repair_paystack_subscription_code_from_lookup, calculate_period_end, disable_gateway_subscription,
  finish_upgrade, upgrade, queue_plan, settle, close_ended, provision_plan, provision_subscription,
  initial_codes, end_of, same_plan,
}
use mytrackr_backend.Payments.Provision.Covered.{
  mem-insert, mem-insert_old, mem-save, mem-save_other, IsCovered, runs_past_period,
  scheduled_new_row, now_le_start, user_new_row, active_ne_scheduled,
}

module _ (g : Gateway) (now : ℕ) (p : Purchase) where
  insert-IsCovered :
      (codes : Codes) (s : Store) → IsCovered p.user now (insert now (new_row p active now codes) s)
  insert-IsCovered codes s = record {
    row = record (new_row p active now codes) { id = s.next_id; created_at = now };
    stored = mem-insert now (new_row p active now codes) s;
    is_active = user_new_row now p now codes;
    runs = runs_past_period now now p.plan.interval (new_row p active now codes) (omega arith) refl;
  }

  upgrade-IsCovered :
      (a : Subscription) (codes : Codes) (s : Store)
      → (upgrade g now p a codes s).0 ≡ ok tt
      → IsCovered p.user now (upgrade g now p a codes s).1
  unfolding upgrade finish_upgrade
  upgrade-IsCovered a codes s returned =
      let (a', calls) = repair_paystack_subscription_code_from_lookup g (plan_of s a) a in
      let s' = save a' (log_calls calls s) in
      let (r, cs) = disable_gateway_subscription g a' in
      elim (Result-cases r) [
        | inl (x, done) ↦ rw done (insert-IsCovered _ _)
        | inr (f, failed) ↦
            (let no : ◌≡◌ {A = Result (Unit {0})} (thrown f) (ok tt) = (rw failed at returned) in
              cc)
      ]

  renew-IsCovered :
      (a : Subscription) (codes : Codes) (s : Store)
      → Memᴰ a s.subscriptions
      → active_of p.user a ≡ true
      → runs_past now a ≡ true
      → IsCovered p.user now (save (renewed_row now p a codes) s)
  renew-IsCovered a codes s m act runs = record {
    row = renewed_row now p a codes;
    stored = mem-save s a (renewed_row now p a codes) m refl;
    is_active = ground arith;
    runs =
        runs_past_period now (if p.is_prorated_upgrade then now else end_of a) p.plan.interval
          (renewed_row now p a codes) (now_le_start now a p.is_prorated_upgrade runs) refl;
  }

  queue_plan-keeps :
      (a : Subscription) (codes : Codes) (s : Store)
      → IsSound s
      → Memᴰ a s.subscriptions
      → active_of p.user a ≡ true
      → Memᴰ a (queue_plan now p a codes s).subscriptions
  unfolding queue_plan
  queue_plan-keeps a codes s h m act =
      elim (Option-cases (find_latest (scheduled_of p.user) s.subscriptions)) [
        | inl free ↦
            rw (free, queue_plan) (mem-insert_old now (new_row p scheduled (end_of a) codes) a s m)
        | inr (q, found) ↦
            let (n, sch) = find_latest-some (scheduled_of p.user) s.subscriptions q found in
            rw (found, queue_plan)
              (mem-save_other s a q (requeued_row p a q codes) h m n refl
                (active_ne_scheduled p.user a q act sch))
      ]

  queue_plan_row :
      (a : Subscription) (codes : Codes) (s : Store)
      → (q : Subscription) × Memᴰ q (queue_plan now p a codes s).subscriptions
        × (scheduled_of p.user q ≡ true)
        × (q.plan ≡ some p.plan.id)
        × (q.current_period_start ≡ some (end_of a))
        × (q.current_period_end ≡ some (calculate_period_end (end_of a) p.plan.interval))
  unfolding queue_plan
  queue_plan_row a codes s =
      elim (Option-cases (find_latest (scheduled_of p.user) s.subscriptions)) [
        | inl free ↦
            rw (free, queue_plan)
              (
                record (new_row p scheduled (end_of a) codes) { id = s.next_id; created_at = now },
                mem-insert now (new_row p scheduled (end_of a) codes) s,
                scheduled_new_row p (end_of a) codes,
                refl,
                refl,
                refl,
              )
        | inr (q, found) ↦
            let (n, sch) = find_latest-some (scheduled_of p.user) s.subscriptions q found in
            rw (found, queue_plan)
              (
                requeued_row p a q codes,
                mem-save s q (requeued_row p a q codes) n refl,
                sch,
                refl,
                refl,
                refl,
              )
      ]

  settle_running-IsCovered :
      (a : Subscription) (codes : Codes) (s : Store)
      → IsSound s
      → Memᴰ a s.subscriptions
      → active_of p.user a ≡ true
      → runs_past now a ≡ true
      → let m =
          (if same_plan p a
            then modify (save (renewed_row now p a codes))
            else if p.is_prorated_upgrade
            then upgrade g now p a codes
            else modify (queue_plan now p a codes)) in
        (m s).0 ≡ ok tt → IsCovered p.user now (m s).1
  settle_running-IsCovered a codes s h m act runs =
      let P = λ (x : Exec (Unit {0})). (x s).0 ≡ ok tt → IsCovered p.user now (x s).1 in
      let renew = modify (save (renewed_row now p a codes)) in
      let queue = modify (queue_plan now p a codes) in
      let up = upgrade g now p a codes in
      if_both P (same_plan p a) renew (if p.is_prorated_upgrade then up else queue)
        (λ _ _. renew-IsCovered a codes s m act runs)
        (λ _.
          if_both P p.is_prorated_upgrade up queue
            (λ _ returned. upgrade-IsCovered a codes s returned)
            (λ _ _. record {
              row = a;
              stored = queue_plan-keeps a codes s h m act;
              is_active = act;
              runs = runs;
            }))

  settle-IsCovered :
      (existing : Option Subscription) (codes : Codes) (s : Store) (cs : List Call)
      → IsSound s
      → find_latest (active_of p.user) s.subscriptions ≡ existing
      → (settle g now p existing codes (log_calls cs (close_ended now existing s))).0 ≡ ok tt
      → IsCovered p.user now
          (settle g now p existing codes (log_calls cs (close_ended now existing s))).1
  unfolding settle
  settle-IsCovered none codes s cs h e returned = insert-IsCovered codes (log_calls cs s)
  settle-IsCovered (some a) codes s cs h e returned =
      let (m, act) = find_latest-some (active_of p.user) s.subscriptions a e in
      elim (Bool-cases (runs_past now a)) [
        | inl runs ↦ rw runs (
            settle_running-IsCovered a codes (log_calls cs s) (log_calls-IsSound cs s h) m act runs
              (rw runs at returned))
        | inr over ↦ rw over (insert-IsCovered codes (log_calls cs (save (cancel_row now a) s)))
      ]

-- From a sound table, a payment for a plan and a user that exist, provisioned without a gateway
-- failure, leaves its user with an active subscription that ends after the present, whatever the user
-- had before.
pub provision_subscription-IsCovered :
    (g : Gateway) (now user plan : ℕ) (customer : Option String) (auth : Option Authorization)
    (payment : PaymentSubscription) (up : Bool) (s : Store) (q : Plan) (u : ℕ)
    → IsSound s
    → find_plan plan s.plans ≡ some q
    → find_user user s.users ≡ some u
    → (provision_subscription g now user plan customer auth payment up s).0 ≡ ok tt
    → IsCovered u now (provision_subscription g now user plan customer auth payment up s).1
unfolding provision_subscription provision_plan
provision_subscription-IsCovered g now user plan customer auth payment up s q u h found known
      returned =
    let p : Purchase = record {
      user = u;
      plan = q;
      customer_code = customer;
      authorization = auth;
      payment = payment;
      is_prorated_upgrade = up;
    } in
    let (codes, calls) = initial_codes g p in
    rw (found, known, provision_subscription)
      (settle-IsCovered g now p (find_latest (active_of u) s.subscriptions) codes s calls h refl
        (rw (found, known, provision_subscription) at returned))

-- In a sound table where the user has an active subscription that still runs, a payment for another plan that is not
-- a prorated upgrade takes nothing from it: the active row stays as it is, and a queued row for the
-- new plan begins exactly when the active one ends and ends one period later.
pub provision_plan_queues :
    (g : Gateway) (now : ℕ) (p : Purchase) (s : Store) (a : Subscription)
    → IsSound s
    → find_latest (active_of p.user) s.subscriptions ≡ some a
    → runs_past now a ≡ true
    → same_plan p a ≡ false
    → p.is_prorated_upgrade ≡ false
    → let s' = (provision_plan g now p s).1 in
      Memᴰ a s'.subscriptions
      × ((q : Subscription) × Memᴰ q s'.subscriptions
          × (scheduled_of p.user q ≡ true)
          × (q.plan ≡ some p.plan.id)
          × (q.current_period_start ≡ some (end_of a))
          × (q.current_period_end ≡ some (calculate_period_end (end_of a) p.plan.interval)))
unfolding provision_plan settle
provision_plan_queues g now p s a h found runs other later =
    let (m, act) = find_latest-some (active_of p.user) s.subscriptions a found in
    let (codes, calls) = initial_codes g p in
    let s' = log_calls calls s in
    rw (found, provision_plan)
      (simp (runs, other, later)
        (
          queue_plan-keeps g now p a codes s' (log_calls-IsSound calls s h) m act,
          queue_plan_row g now p a codes s',
        ))
