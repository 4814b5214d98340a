-- ===== src/Payments/Provision/Keeps.antt =====
-- Every branch of provisioning keeps the invariant of the table, also where it throws.
use mathlib.Core.List.{Memᴰ}
use mytrackr_backend.Prelude.{
  ℕ, ◌≡◌, sym, inl, inr, refl, Bool, true, Option, none, some, List, Bool-cases, Option-cases,
  arith, if_both, if◌then◌else◌, String,
}
use mytrackr_backend.Payments.Entities.{Subscription, Authorization}
use mytrackr_backend.Payments.Store.{
  Store, active_of, scheduled_of, save, find_latest, find_plan, find_user, Call,
}
use mytrackr_backend.Payments.Store.Rows.{find_latest-some, find_latest-none, mem-replace}
use mytrackr_backend.Payments.Store.Sound.{IsSound}
use mytrackr_backend.Payments.Status.{runs_past, plan_of}
use mytrackr_backend.Payments.Gateway.{Gateway, Codes, PaymentSubscription}
use mytrackr_backend.Payments.Exec.{Exec, modify, Result-cases}
use mytrackr_backend.Payments.Provision.{
  Purchase, log_calls, cancel_row, renewed_row, requeued_row,
  repair_paystack_subscription_code_from_lookup, disable_gateway_subscription, finish_upgrade,
  upgraded_row, upgrade, queue_plan, settle, close_ended, provision_plan, provision_subscription,
  initial_codes, same_plan,
}
use mytrackr_backend.Payments.Provision.Sound.{
  log_calls-IsSound, insert_active-IsSound, insert_scheduled-IsSound, save-IsSound_of_Tame,
  cancel_row-Tame, renewed_row-Tame, requeued_row-Tame, repaired_same, Tame-repaired, idle-save,
}

module _ (g : Gateway) (now : ℕ) (p : Purchase) where
  finish_upgrade-IsSound :
      (a : Subscription) (codes : Codes) (s : Store)
      → IsSound s
      → Memᴰ a s.subscriptions
      → active_of p.user a ≡ true
      → IsSound (finish_upgrade g now p a codes s)
  unfolding finish_upgrade
  finish_upgrade-IsSound a codes s h m act =
      let row = upgraded_row now a in
      let sound = save-IsSound_of_Tame s a row h m (refl, λ v. ground arith, λ v. ground arith) in
      insert_active-IsSound now p now _ (log_calls _ (save row s))
        (log_calls-IsSound _ (save row s) sound)
        (idle-save p.user s a row h m refl act (ground arith))

  upgrade-IsSound :
      (a : Subscription) (codes : Codes) (s : Store)
      → IsSound s
      → Memᴰ a s.subscriptions
      → active_of p.user a ≡ true
      → IsSound (upgrade g now p a codes s).1
  unfolding upgrade save
  upgrade-IsSound a codes s h m act =
      let (a', calls) = repair_paystack_subscription_code_from_lookup g (plan_of s a) a in
      let (e, eu, es) = repaired_same g (plan_of s a) a in
      let s' = log_calls calls s in
      let sound =
        save-IsSound_of_Tame s' a a' (log_calls-IsSound calls s h) m
          (Tame-repaired g (plan_of s a) a) in
      let (r, cs) = disable_gateway_subscription g a' in
      elim (Result-cases r) [
        | inl (x, done) ↦ rw done (
            finish_upgrade-IsSound a' codes (log_calls cs (save a' s'))
              (log_calls-IsSound cs (save a' s') sound) (mem-replace s.subscriptions a a' m (sym e))
              (rw (eu, es) act))
        | inr (f, failed) ↦ rw failed (log_calls-IsSound cs (save a' s') sound)
      ]

  queue_plan-IsSound :
      (a : Subscription) (codes : Codes) (s : Store)
      → IsSound s
      → IsSound (queue_plan now p a codes s)
  unfolding queue_plan
  queue_plan-IsSound a codes s h =
      elim (Option-cases (find_latest (scheduled_of p.user) s.subscriptions)) [
        | inl free ↦
            rw (free, queue_plan)
              (insert_scheduled-IsSound now p _ codes s h
                (find_latest-none (scheduled_of p.user) s.subscriptions free))
        | inr (q, found) ↦
            let (m, e) = find_latest-some (scheduled_of p.user) s.subscriptions q found in
            rw (found, queue_plan)
              (save-IsSound_of_Tame s q (requeued_row p a q codes) h m
                (requeued_row-Tame p a q codes))
      ]

  settle_running-IsSound :
      (a : Subscription) (codes : Codes) (s : Store)
      → IsSound s
      → Memᴰ a s.subscriptions
      → active_of p.user a ≡ true
      → IsSound
          ((if same_plan p a
              then modify (save (renewed_row now p a codes))
              else if p.is_prorated_upgrade
              then upgrade g now p a codes
              else modify (queue_plan now p a codes))
            s).1
  settle_running-IsSound a codes s h m act =
      let renew = modify (save (renewed_row now p a codes)) in
      let queue = modify (queue_plan now p a codes) in
      let up = upgrade g now p a codes in
      if_both (λ (x : Exec (Unit {0})). IsSound (x s).1) (same_plan p a) renew
        (if p.is_prorated_upgrade then up else queue)
        (λ _.
          save-IsSound_of_Tame s a (renewed_row now p a codes) h m
            (renewed_row-Tame now p.user p a codes act))
        (λ _.
          if_both (λ (x : Exec (Unit {0})). IsSound (x s).1) p.is_prorated_upgrade up queue
            (λ _. upgrade-IsSound a codes s h m act) (λ _. queue_plan-IsSound a codes s h))

  settle-IsSound :
      (existing : Option Subscription) (codes : Codes) (s : Store) (cs : List Call)
      → IsSound s
      → find_latest (active_of p.user) s.subscriptions ≡ existing
      → IsSound (settle g now p existing codes (log_calls cs (close_ended now existing s))).1
  unfolding settle
  settle-IsSound none codes s cs h e =
      insert_active-IsSound now p now codes (log_calls cs s) (log_calls-IsSound cs s h)
        (find_latest-none (active_of p.user) s.subscriptions e)
  settle-IsSound (some a) codes s cs h e =
      let (m, act) = find_latest-some (active_of p.user) s.subscriptions a e in
      let row = cancel_row now a in
      elim (Bool-cases (runs_past now a)) [
        | inl runs ↦
            rw runs
              (settle_running-IsSound a codes (log_calls cs s) (log_calls-IsSound cs s h) m act)
        | inr over ↦ rw over (
            insert_active-IsSound now p now codes (log_calls cs (save row s))
              (log_calls-IsSound cs (save row s)
                (save-IsSound_of_Tame s a row h m (cancel_row-Tame now a)))
              (idle-save p.user s a row h m refl act (ground arith)))
      ]

  pub provision_plan-IsSound : (s : Store) → IsSound s → IsSound (provision_plan g now p s).1
  unfolding provision_plan
  provision_plan-IsSound s h =
      let (codes, calls) = initial_codes g p in
      settle-IsSound (find_latest (active_of p.user) s.subscriptions) codes s calls h refl

-- From a sound table, provisioning keeps the invariant: unique ids, one active and one queued subscription for each
-- user at most. That holds on every branch, also where a gateway call throws midway.
pub provision_subscription-IsSound :
    (g : Gateway) (now user plan : ℕ) (customer : Option String) (auth : Option Authorization)
    (payment : PaymentSubscription) (up : Bool) (s : Store)
    → IsSound s
    → IsSound (provision_subscription g now user plan customer auth payment up s).1
unfolding provision_subscription
provision_subscription-IsSound g now user plan customer auth payment up s h =
    elim (Option-cases (find_plan plan s.plans)) [
      | inl gone ↦ rw (gone, provision_subscription) h
      | inr (q, found) ↦ elim (Option-cases (find_user user s.users)) [
        | inl gone ↦ rw (found, gone, provision_subscription) h
        | inr (u, known) ↦
            rw (found, known, provision_subscription) (provision_plan-IsSound g now _ s h)
      ]
    ]
