-- ===== src/Payments/Tests.antt =====
-- Runs of the subscription service on a small table, and the theorems applied to them.
mod Data
use mytrackr_backend.Prelude.{
  ℕ, ◌+◌, ◌-◌, ◌*◌, ◌≤◌, ◌<◌, ◌≡◌, ◌≢◌, str_eq_iff, refl, Bool, true, false, none, some, String,
  List, [], ◌∷◌, arith,
}
use mathlib.Core.List.{Memᴰ}
use mytrackr_backend.Calendar.{ms_per_day}
use mytrackr_backend.Payments.Entities.{
  Plan, Subscription, SubscriptionStatus, PaymentTransaction, PaymentStatus,
}
use mytrackr_backend.Payments.Store.{
  Store, Call, save_payment, active_of, scheduled_of, find_latest, find_plan, find_user,
  find_payment, save, replace, find_earliest, find_subscription_by_id,
}
use mytrackr_backend.Payments.Store.Sound.{IsSound}
use mytrackr_backend.Payments.Status.{
  get_user_subscription_status, activate_scheduled_if_due, activate_next, activate_record,
  activate_row, report,
}
use mytrackr_backend.Payments.Status.Verdict.{
  IsTrue, get_user_subscription_status-IsTrue, get_user_subscription_status_again,
}
use mytrackr_backend.Payments.Gateway.{Gateway, PaymentSubscription, Verification}
use mytrackr_backend.Payments.Exec.{ok, thrown, gateway_failure}
use mytrackr_backend.Payments.Provision.{
  Purchase, log_calls, calculate_period_end, provision_subscription, provision_plan, settle,
}
use mytrackr_backend.Payments.Provision.Keeps.{provision_subscription-IsSound}
use mytrackr_backend.Payments.Provision.Effects.{
  provision_subscription-IsCovered, provision_plan_queues,
}
use mytrackr_backend.Payments.Provision.Covered.{calculate_period_end_bounds}
use mytrackr_backend.Payments.Provision.Covered.{IsCovered}
use mytrackr_backend.Payments.Provision.Failure.{provision_plan_fails}
use mytrackr_backend.Payments.Requests.{
  WebhookEvent, handle_webhook, processed, Verified, verify_with_gateway, verify_payment,
  provision_verified, confirmed,
}
use mytrackr_backend.Payments.Requests.Answer.{verify_with_gateway_active}
use mytrackr_backend.Payments.Requests.Once.{handle_webhook_once}
use mytrackr_backend.Payments.Worker.{process_due, acquire_lock, release_lock}
use mytrackr_backend.Payments.Worker.Exclusion.{acquire_lock_excludes}
use mytrackr_backend.Payments.Worker.Sound.{process_due-IsSound}
use mytrackr_backend.Payments.History.{Event, run_all, run_all-IsSound}
use mytrackr_backend.Payments.Pricing.{upgrade_pricing, billing_period_days, ceil_div, round_div}
use mytrackr_backend.Payments.Pricing.Bounds.{upgrade_pricing_bounds}
use mytrackr_backend.Payments.Tests.Data.{
  at_day, today, month_plan, basic, pro, row_of, running_row, ended_row, queued_row, payment_of,
  store_of, running_store, ended_store, running_store-IsSound, ended_store-IsSound, paid, stubborn,
  purchase, charge, replayed, bare_store, bare_store-IsSound,
}

abbrev replay_store : Store
replay_store =
    (provision_verified stubborn today 7 2 paid replayed (
      save_payment (confirmed paid replayed)
        (log_calls (Call.verify_payment "ref" ∷ []) bare_store))).1

abbrev replay_answer : Verified
replay_answer = record {
  reference = "ref";
  subscription = (get_user_subscription_status 7 today replay_store).0;
}

replay_returns : (verify_with_gateway stubborn today 7 2 replayed bare_store).0 ≡ ok replay_answer
unfolding verify_with_gateway verify_payment provision_subscription provision_plan settle find_plan
    find_user find_latest save_payment
replay_returns = refl

pro_known : find_plan 2 bare_store.plans ≡ some pro
unfolding find_plan
pro_known = refl

user_known : find_user 7 bare_store.users ≡ some 7
unfolding find_user
user_known = refl

verify_with_gateway_active_example : replay_answer.subscription.has_active_subscription ≡ true
verify_with_gateway_active_example =
    verify_with_gateway_active stubborn today 7 2 replayed bare_store pro replay_answer
      bare_store-IsSound pro_known user_known replay_returns

-- A status, a payment, its webhook, a cancellation and a round of the worker, in turn
abbrev events : List (Gateway × ℕ × Event)
events =
    (stubborn, today, Event.status 7)
    ∷ (stubborn, today + 1, Event.verify 7 "ref")
    ∷ (stubborn, today + 2, Event.webhook (some charge))
    ∷ (stubborn, today + 3, Event.cancel 7)
    ∷ (stubborn, at_day 20900, Event.tick "worker")
    ∷ []

run_all-IsSound_example : IsSound (run_all events (none, ended_store)).1
run_all-IsSound_example = run_all-IsSound events none ended_store ended_store-IsSound

get_user_subscription_status-IsTrue_example :
    IsTrue 7 today
      (get_user_subscription_status 7 today ended_store).0
      (get_user_subscription_status 7 today ended_store).1
get_user_subscription_status-IsTrue_example =
    get_user_subscription_status-IsTrue 7 today ended_store ended_store-IsSound

ended_store_active :
    (get_user_subscription_status 7 today ended_store).0.has_active_subscription ≡ true
unfolding get_user_subscription_status activate_scheduled_if_due activate_next activate_record
    activate_row report save replace find_latest find_earliest find_subscription_by_id
ended_store_active = refl

provision_returns :
    (provision_subscription stubborn today 7 2
      (some "CUS")
      none
      PaymentSubscription.absent
      false
      running_store).0
    ≡ ok tt
unfolding provision_subscription provision_plan settle find_plan find_user find_latest
provision_returns = refl

pro_found : find_plan 2 running_store.plans ≡ some pro
unfolding find_plan
pro_found = refl

user_found : find_user 7 running_store.users ≡ some 7
unfolding find_user
user_found = refl

provision_subscription-IsCovered_example :
    IsCovered 7 today
      (provision_subscription stubborn today 7 2
        (some "CUS")
        none
        PaymentSubscription.absent
        false
        running_store).1
provision_subscription-IsCovered_example =
    provision_subscription-IsCovered stubborn today 7 2 (some "CUS") none PaymentSubscription.absent
      false running_store pro 7 running_store-IsSound pro_found user_found provision_returns

running_found : find_latest (active_of 7) running_store.subscriptions ≡ some running_row
unfolding find_latest
running_found = refl

provision_plan_queues_example :
    let s' = (provision_plan stubborn today (purchase false) running_store).1 in
    Memᴰ running_row s'.subscriptions
    × ((q : Subscription) × Memᴰ q s'.subscriptions
        × (scheduled_of 7 q ≡ true)
        × (q.plan ≡ some 2)
        × (q.current_period_start ≡ some 1796860800000)
        × (q.current_period_end ≡ some (calculate_period_end 1796860800000 "monthly")))
provision_plan_queues_example =
    provision_plan_queues stubborn today (purchase false) running_store running_row
      running_store-IsSound running_found refl refl refl

provision_plan_fails_example :
    ((provision_plan stubborn today (purchase true) running_store).0 ≡ thrown gateway_failure)
    × ((provision_plan stubborn today (purchase true) running_store).1.subscriptions
        ≡ running_store.subscriptions)
provision_plan_fails_example =
    provision_plan_fails stubborn today (purchase true) running_store running_row "SUB" "token"
      running_store-IsSound running_found refl refl refl refl refl refl

payment_found : find_payment "ref" running_store.payments ≡ some (payment_of "ref")
unfolding find_payment
payment_found = refl

handle_webhook_once_example :
    handle_webhook stubborn
      (today + 1)
      (some charge)
      (handle_webhook stubborn today (some charge) running_store).1
    ≡ (ok processed, (handle_webhook stubborn today (some charge) running_store).1)
handle_webhook_once_example =
    handle_webhook_once stubborn today charge running_store (payment_of "ref") paid stubborn
      (today + 1) refl payment_found refl refl refl

calculate_period_end_bounds_example :
    (today + 28 * ms_per_day ≤ calculate_period_end today "monthly")
    × (calculate_period_end today "monthly" ≤ today + 366 * ms_per_day)
calculate_period_end_bounds_example = calculate_period_end_bounds today "monthly"

running_upgrade :
    (upgrade_pricing today pro basic running_row 1796860800000).is_prorated_upgrade ≡ true
unfolding upgrade_pricing
running_upgrade = refl

-- The upgrade is half a period in: half the basic plan's price is credited.
running_upgrade_due :
    (upgrade_pricing today pro basic running_row 1796860800000).amount_due ≡ 750000
unfolding upgrade_pricing billing_period_days ceil_div round_div
running_upgrade_due = refl

upgrade_pricing_bounds_example :
    let pr = upgrade_pricing today pro basic running_row 1796860800000 in
    (pr.prorated_credit ≤ 300000)
    × (900000 - 300000 ≤ pr.amount_due)
    × (0 < pr.amount_due)
    × (pr.amount_due ≤ 900000)
upgrade_pricing_bounds_example =
    upgrade_pricing_bounds today 1794268800000 1796860800000 pro basic running_row refl
      (omega arith) (omega arith) running_upgrade

first_takes : (acquire_lock "worker-1" 10 none).0 ≡ true
unfolding acquire_lock
first_takes = refl

workers_differ : ◌≢◌ {A = String} "worker-1" "worker-2"
workers_differ e = (let no : false ≡ true = (str_eq_iff "worker-1" "worker-2").1 e in cc)
