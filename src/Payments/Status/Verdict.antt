-- ===== src/Payments/Status/Verdict.antt =====
-- What getUserSubscriptionStatus answers, against the table that it leaves.
use mathlib.Core.List.{Memᴰ}
use mytrackr_backend.Prelude.{
  ℕ, ◌≡◌, ap, sym, ◌∙◌, ◌⊎◌, inl, inr, refl, true, false, Option, none, some, count, Bool-cases,
  arith, ◌∙◌,
}
use mytrackr_backend.Payments.Entities.{Subscription}
use mytrackr_backend.Payments.Store.{Store, active_of}
use mytrackr_backend.Payments.Store.Rows.{find_latest-some, find_latest-mem, eq_of_count}
use mytrackr_backend.Payments.Store.Sound.{IsSound}
use mytrackr_backend.Payments.Status.{
  SubscriptionState, no_subscription, running, ended_before, report, activate_scheduled_if_due,
  get_user_subscription_status,
}
use mytrackr_backend.Payments.Status.Sound.{
  IsSettled, activate_scheduled_if_due-IsSettled, set_past_due-IsSound,
}

-- The answer names the user's one active row, which has not ended; or there is no active row.
pub record IsTrue (u now : ℕ) (st : SubscriptionState) (s : Store) : Type 0 where
  pub sound : IsSound s
  pub verdict :
      ((r : Subscription) × Memᴰ r s.subscriptions
        × (active_of u r ≡ true)
        × (ended_before now r ≡ false)
        × (st ≡ running s r))
      ⊎ ((st ≡ no_subscription) × (count (active_of u) s.subscriptions ≡ 0))

report_row-IsTrue :
    (u now : ℕ) (a : Subscription) (s : Store)
    → IsSound s
    → Memᴰ a s.subscriptions
    → active_of u a ≡ true
    → IsTrue u now (report now (some a) s).0 (report now (some a) s).1
unfolding report
report_row-IsTrue u now a s h m act = elim (Bool-cases (ended_before now a)) [
  | inl over ↦
      let (sound, idle) = set_past_due-IsSound u s a h m act in
      rw over (record { sound = sound; verdict = inr (refl, idle) })
  | inr runs ↦ rw runs (record { sound = h; verdict = inl (a, m, act, runs, refl) })
]

report-IsTrue :
    (u now : ℕ) (found : Option Subscription) (s : Store)
    → IsSettled u now found s
    → IsTrue u now (report now found s).0 (report now found s).1
unfolding report
report-IsTrue u now none s h = record {
  sound = h.sound;
  verdict = elim h.verdict [ inl (r, e, _, _) ↦ cc | inr (_, idle) ↦ inr (refl, idle) ];
}
report-IsTrue u now (some a) s h = elim h.verdict [
  | inl (r, e, m, act) ↦
      let same : a ≡ r = cc in rw same (report_row-IsTrue u now r s h.sound m act)
  | inr (e, _) ↦ cc
]

-- From a sound table, reading the status of a user keeps the table sound, and its answer is true of
-- the table that it leaves: either it names the plan, the end and the cancellation mark of a row that is active for the
-- user and has not ended, or it says that there is none and no row is active for the user.
pub get_user_subscription_status-IsTrue :
    (u now : ℕ) (s : Store)
    → IsSound s
    → IsTrue u now (get_user_subscription_status u now s).0 (get_user_subscription_status u now s).1
unfolding get_user_subscription_status
get_user_subscription_status-IsTrue u now s h =
    report-IsTrue u now (activate_scheduled_if_due u now s).0 (activate_scheduled_if_due u now s).1
      (activate_scheduled_if_due-IsSettled u now s h)

pub running_again :
    (u now : ℕ) (r : Subscription) (s : Store)
    → IsSound s
    → Memᴰ r s.subscriptions
    → active_of u r ≡ true
    → ended_before now r ≡ false
    → get_user_subscription_status u now s ≡ (running s r, s)
unfolding get_user_subscription_status report activate_scheduled_if_due
running_again u now r s h m act runs =
    let (t, found) = find_latest-mem (active_of u) s.subscriptions r m act in
    let (n, t_act) = find_latest-some (active_of u) s.subscriptions t found in
    let same = eq_of_count (active_of u) s.subscriptions t r (h.one_active u) n m t_act act in
    ground (arith, found, same, runs)

-- From a sound table, a status that names an active subscription does not change when it is read
-- again at the same instant, and the second reading writes nothing.
pub get_user_subscription_status_again :
    (u now : ℕ) (s : Store)
    → IsSound s
    → (get_user_subscription_status u now s).0.has_active_subscription ≡ true
    → get_user_subscription_status u now (get_user_subscription_status u now s).1
      ≡ get_user_subscription_status u now s
get_user_subscription_status_again u now s h st =
    let truth = get_user_subscription_status-IsTrue u now s h in
    elim truth.verdict [
      | inl (r, m, act, runs, e) ↦
          running_again u now r (get_user_subscription_status u now s).1 truth.sound m act runs
          ∙ ap (λ (x : SubscriptionState). (x, (get_user_subscription_status u now s).1)) (sym e)
      | inr (e, _) ↦ cc
    ]
