-- ===== src/Payments/History.antt =====
-- Whole runs of the subscription service: requests and rounds of the worker, one after another, each
-- at its own instant and with its own answers of the gateway.
use mytrackr_backend.Prelude.{ℕ, Option, String, List, [], ◌∷◌}
use mytrackr_backend.Payments.Store.{Store}
use mytrackr_backend.Payments.Store.Sound.{IsSound}
use mytrackr_backend.Payments.Status.{get_user_subscription_status}
use mytrackr_backend.Payments.Status.Verdict.{get_user_subscription_status-IsTrue}
use mytrackr_backend.Payments.Gateway.{Gateway}
use mytrackr_backend.Payments.Requests.{
  WebhookEvent, verify_subscription_payment, handle_webhook, cancel_subscription,
}
use mytrackr_backend.Payments.Requests.Sound.{
  verify_subscription_payment-IsSound, handle_webhook-IsSound, cancel_subscription-IsSound,
}
use mytrackr_backend.Payments.Worker.{Lock, process_scheduled_subscriptions}
use mytrackr_backend.Payments.Worker.Sound.{process_scheduled_subscriptions-IsSound}

pub data Event : Type 0 where
  status : (user : ℕ) → Event
  verify : (user : ℕ) → String → Event
  webhook : Option WebhookEvent → Event
  cancel : (user : ℕ) → Event
  tick : (owner : String) → Event

abbrev pub State : Type 0
State = Lock × Store

unfoldable pub handle : Gateway → ℕ → Event → State → State
handle g now (status user) (lock, s) = (lock, (get_user_subscription_status user now s).1)
handle g now (verify user reference) (lock, s) =
    (lock, (verify_subscription_payment g now user reference s).1)
handle g now (webhook e) (lock, s) = (lock, (handle_webhook g now e s).1)
handle g now (cancel user) (lock, s) = (lock, (cancel_subscription g now user s).1)
handle g now (tick owner) st = process_scheduled_subscriptions owner now st

unfoldable pub run_all : List (Gateway × ℕ × Event) → State → State
run_all [] st = st
run_all ((g, now, e) ∷ rest) st = run_all rest (handle g now e st)

handle-IsSound :
    (g : Gateway) (now : ℕ) (e : Event) (lock : Lock) (s : Store)
    → IsSound s
    → IsSound (handle g now e (lock, s)).1
unfolding handle
handle-IsSound g now (status user) lock s h =
    (get_user_subscription_status-IsTrue user now s h).sound
handle-IsSound g now (verify user reference) lock s h =
    verify_subscription_payment-IsSound g now user reference s h
handle-IsSound g now (webhook e) lock s h = handle_webhook-IsSound g now e s h
handle-IsSound g now (cancel user) lock s h = cancel_subscription-IsSound g now user s h
handle-IsSound g now (tick owner) lock s h =
    process_scheduled_subscriptions-IsSound owner now lock s h

-- Whatever status readings, payment verifications, webhooks, cancellations and worker rounds are run,
-- in whatever order, at whatever instants and with whatever answers of the gateway, from a sound
-- table: subscription ids stay unique, and no user ever has two active or two queued subscriptions.
pub run_all-IsSound :
    (events : List (Gateway × ℕ × Event)) (lock : Lock) (s : Store)
    → IsSound s
    → IsSound (run_all events (lock, s)).1
unfolding run_all
run_all-IsSound [] lock s h = h
run_all-IsSound ((g, now, e) ∷ rest) lock s h =
    let (lock', s') = handle g now e (lock, s) in
    run_all-IsSound rest lock' s' (handle-IsSound g now e lock s h)
