-- ===== src/Payments/Status.antt =====
-- src/payments/services/subscription.service.ts: the status of a user's subscription and the
-- activation of queued plans. Each `new Date()` of one request is the same instant `now`.
pub mod Sound
pub mod Verdict
use mytrackr_backend.Prelude.{
  ℕ, Bool, true, false, ◌&&◌, Option, none, some, List, [], ◌∷◌, map, ◌==◌, ltb, leb, any,
  if◌then◌else◌,
}
use mytrackr_backend.Payments.Entities.{Plan, Subscription, active, past_due, is_scheduled}
use mytrackr_backend.Payments.Store.{
  Store, find_plan, find_latest, find_earliest, find_subscription_by_id, active_of, scheduled_of,
  save,
}

-- currentPeriodStart <= now, in SQL
abbrev pub starts_by : ℕ → Subscription → Bool
starts_by now s = elim s.current_period_start [ none ↦ false | some t ↦ leb t now ]

abbrev pub due_of : ℕ → ℕ → Subscription → Bool
due_of u now s = scheduled_of u s && starts_by now s

-- currentPeriodEnd && currentPeriodEnd < now
abbrev pub ended_before : ℕ → Subscription → Bool
ended_before now s = elim s.current_period_end [ none ↦ false | some t ↦ ltb t now ]

-- currentPeriodEnd && currentPeriodEnd > now
abbrev pub runs_past : ℕ → Subscription → Bool
runs_past now s = elim s.current_period_end [ none ↦ false | some t ↦ ltb now t ]

abbrev pub set_past_due : Subscription → Subscription
set_past_due s = record s { status = past_due }

-- The update query of activateScheduledSubscriptionRecord, on one row
abbrev pub is_due_record : ℕ → ℕ → Subscription → Bool
is_due_record id now s = s.id == id && (is_scheduled s.status && starts_by now s)

unfoldable pub activate_row : ℕ → ℕ → Subscription → Subscription
activate_row id now s =
    if is_due_record id now s
    then record s { status = active; cancel_at_period_end = false; canceled_at = none }
    else s

-- activateScheduledSubscriptionRecord
unfoldable pub activate_record : ℕ → ℕ → Store → Option Subscription × Store
activate_record id now s =
    let rows = map (activate_row id now) s.subscriptions in
    if any (is_due_record id now) s.subscriptions
    then (find_subscription_by_id id rows, record s { subscriptions = rows })
    else (none, s)

-- The rest of activateScheduledSubscriptionIfDue, when no active row is still running
unfoldable pub activate_next : ℕ → ℕ → Store → Option Subscription × Store
activate_next u now s = elim (find_earliest (due_of u now) s.subscriptions) [
  | none ↦ (none, s)
  | some r ↦ activate_record r.id now s
]

-- activateScheduledSubscriptionIfDue
unfoldable pub activate_scheduled_if_due : ℕ → ℕ → Store → Option Subscription × Store
activate_scheduled_if_due u now s = elim (find_latest (active_of u) s.subscriptions) [
  | none ↦ activate_next u now s
  | some a ↦
      if ended_before now a then activate_next u now (save (set_past_due a) s) else (some a, s)
]

pub record SubscriptionState : Type 0 where
  pub has_active_subscription : Bool
  pub active_plan : Option Plan
  pub expires_at : Option ℕ
  -- `none` where the answer has no such field
  pub cancel_at_period_end : Option Bool

abbrev pub no_subscription : SubscriptionState
no_subscription = record {
  has_active_subscription = false;
  active_plan = none;
  expires_at = none;
  cancel_at_period_end = none;
}

-- The plan relation of a row
abbrev pub plan_of : Store → Subscription → Option Plan
plan_of s r = elim r.plan [ none ↦ none | some k ↦ find_plan k s.plans ]

abbrev pub running : Store → Subscription → SubscriptionState
running s r = record {
  has_active_subscription = true;
  active_plan = plan_of s r;
  expires_at = r.current_period_end;
  cancel_at_period_end = some r.cancel_at_period_end;
}

unfoldable pub report : ℕ → Option Subscription → Store → SubscriptionState × Store
report now none s = (no_subscription, s)
report now (some r) s =
    if ended_before now r then (no_subscription, save (set_past_due r) s) else (running s r, s)

-- getUserSubscriptionStatus
unfoldable pub get_user_subscription_status : ℕ → ℕ → Store → SubscriptionState × Store
get_user_subscription_status u now s =
    let (found, s') = activate_scheduled_if_due u now s in report now found s'
