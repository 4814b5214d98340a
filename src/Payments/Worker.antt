-- ===== src/Payments/Worker.antt =====
-- src/payments/services/subscription.service.ts: the worker that runs every minute and starts the
-- queued plans that are due, under a lock in Redis.
pub mod Sound
pub mod Exclusion
use mytrackr_backend.Prelude.{
  ℕ, ◌+◌, Bool, true, false, ◌&&◌, Option, none, some, String, List, [], ◌∷◌, str_eq, leb, keep,
  if◌then◌else◌,
}
use mytrackr_backend.Payments.Entities.{Subscription, is_scheduled}
use mytrackr_backend.Payments.Store.{Store, find_latest, active_of, save, starts_before}
use mytrackr_backend.Payments.Status.{starts_by, runs_past, set_past_due, activate_record}

-- order: { currentPeriodStart: 'ASC' }
unfoldable pub insert_by_start : Subscription → List Subscription → List Subscription
insert_by_start r [] = r ∷ []
insert_by_start r (x ∷ xs) =
    let later = x ∷ insert_by_start r xs in
    if starts_before r.current_period_start x.current_period_start then r ∷ x ∷ xs else later

unfoldable pub sort_by_start : List Subscription → List Subscription
sort_by_start [] = []
sort_by_start (x ∷ xs) = insert_by_start x (sort_by_start xs)

-- The rows that the worker reads at the start of a round
unfoldable pub due_rows : ℕ → Store → List Subscription
due_rows now s =
    sort_by_start (keep (λ r. is_scheduled r.status && starts_by now r) s.subscriptions)

-- One round of the loop, on a row as it was read at the start
unfoldable pub process_row : ℕ → Subscription → Store → Store
process_row now r s = elim (find_latest (active_of r.user) s.subscriptions) [
  | none ↦ (activate_record r.id now s).1
  | some a ↦ if runs_past now a then s else (activate_record r.id now (save (set_past_due a) s)).1
]

unfoldable pub process_rows : ℕ → List Subscription → Store → Store
process_rows now [] s = s
process_rows now (r ∷ rows) s = process_rows now rows (process_row now r s)

-- The body of processScheduledSubscriptions
unfoldable pub process_due : ℕ → Store → Store
process_due now s = process_rows now (due_rows now s) s

-- The key of the lock in Redis: its owner and the instant at which it expires
abbrev pub Lock : Type 0
Lock = Option (String × ℕ)

-- SCHEDULED_SUBSCRIPTION_LOCK_TTL_SECONDS, in milliseconds
abbrev pub lock_ttl : ℕ
lock_ttl = 55000

-- acquireScheduledSubscriptionLock: SET … EX … NX
unfoldable pub acquire_lock : String → ℕ → Lock → Bool × Lock
acquire_lock owner now none = (true, some (owner, now + lock_ttl))
acquire_lock owner now (some (holder, until)) =
    if leb until now then (true, some (owner, now + lock_ttl)) else (false, some (holder, until))

-- releaseScheduledSubscriptionLock: the script deletes the key if it holds the caller's name
unfoldable pub release_lock : String → Lock → Lock
release_lock owner none = none
release_lock owner (some (holder, until)) =
    if str_eq holder owner then none else some (holder, until)

-- processScheduledSubscriptions
unfoldable pub process_scheduled_subscriptions : String → ℕ → Lock × Store → Lock × Store
process_scheduled_subscriptions owner now (lock, s) =
    let (acquired, held) = acquire_lock owner now lock in
    if acquired then (release_lock owner held, process_due now s) else (held, s)
