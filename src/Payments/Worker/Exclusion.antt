-- ===== src/Payments/Worker/Exclusion.antt =====
-- The lock of the worker.
use mytrackr_backend.Prelude.{
  ℕ, ◌+◌, ◌<◌, ◌≡◌, ◌≢◌, true, false, none, some, String, arith, str_eq_iff, str_eq_refl,
}
use mytrackr_backend.Payments.Worker.{Lock, lock_ttl, acquire_lock, release_lock}

-- A worker that has taken the lock keeps it for its whole life: until it expires, no other worker
-- can take it, not even after trying to release it. Once its own worker releases it, any worker
-- can take it.
pub acquire_lock_excludes :
    (owner other : String) (now later : ℕ) (lock : Lock)
    → (acquire_lock owner now lock).0 ≡ true
    → owner ≢ other
    → later < now + lock_ttl
    → ((acquire_lock other later (release_lock other (acquire_lock owner now lock).1)).0 ≡ false)
      × ((acquire_lock other later (release_lock owner (acquire_lock owner now lock).1)).0 ≡ true)
unfolding acquire_lock release_lock
acquire_lock_excludes owner other now later none taken differ live =
    ground (arith, str_eq_iff owner other, str_eq_refl owner)
acquire_lock_excludes owner other now later (some (holder, until)) taken differ live =
    ground (arith, str_eq_iff owner other, str_eq_refl owner)
