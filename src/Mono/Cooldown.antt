-- ===== src/Mono/Cooldown.antt =====
-- src/mono/transaction-cooldown.ts: when the accounts of a user may be synchronised again.
pub mod Summary
use mytrackr_backend.Prelude.{
  ℕ, ◌+◌, ◌-◌, ◌*◌, ◌/◌, Bool, true, false, ◌&&◌, Option, none, some, String, List, [], ◌∷◌, map,
  all, is_some, leb, ltb, if◌then◌else◌,
}

abbrev pub transaction_sync_cooldown_seconds : ℕ
transaction_sync_cooldown_seconds = 3600

-- An account, with its last synchronisation as `getTime` gives it, or none where it is missing or
-- no date
pub record SyncedAccount : Type 0 where
  pub mono_account_id : String
  pub last_synced_at : Option ℕ

pub record AccountTransactionCooldown : Type 0 where
  pub account_id : String
  pub last_synced_at : Option ℕ
  pub next_refresh_at : Option ℕ
  pub remaining_seconds : ℕ
  pub is_active : Bool

-- A synchronisation of the future counts for none.
abbrev pub valid_sync : (now : ℕ) → Option ℕ → Option ℕ
valid_sync now none = none
valid_sync now (some last) = if leb last now then some last else none

abbrev pub next_refresh : Option ℕ → Option ℕ
next_refresh none = none
next_refresh (some last) = some (last + transaction_sync_cooldown_seconds * 1000)

-- Math.max(0, Math.ceil((next - now) / 1000))
abbrev pub remaining : (now : ℕ) → Option ℕ → ℕ
remaining now none = 0
remaining now (some next) = (next - now + 999) / 1000

unfoldable pub timing : ℕ → SyncedAccount → AccountTransactionCooldown
timing now a =
    let last = valid_sync now a.last_synced_at in
    let next = next_refresh last in
    record {
      account_id = a.mono_account_id;
      last_synced_at = last;
      next_refresh_at = next;
      remaining_seconds = remaining now next;
      is_active = ltb 0 (remaining now next);
    }

-- a < b on two instants that are there
abbrev pub refreshes_before : AccountTransactionCooldown → AccountTransactionCooldown → Bool
refreshes_before a b = elim a.next_refresh_at [
  | none ↦ false
  | some x ↦ elim b.next_refresh_at [ none ↦ false | some y ↦ ltb x y ]
]

-- The reduce, from the first account
unfoldable pub earliest_from :
    AccountTransactionCooldown → List AccountTransactionCooldown → AccountTransactionCooldown
earliest_from a [] = a
earliest_from a (b ∷ rest) = earliest_from (if refreshes_before a b then a else b) rest

unfoldable pub earliest : List AccountTransactionCooldown → Option AccountTransactionCooldown
earliest [] = none
earliest (a ∷ rest) =
    if all (λ (t : AccountTransactionCooldown). is_some t.next_refresh_at) (a ∷ rest)
    then some (earliest_from a rest)
    else none

pub record TransactionSyncCooldown : Type 0 where
  pub duration_seconds : ℕ
  pub server_time : ℕ
  pub next_refresh_at : Option ℕ
  pub remaining_seconds : ℕ
  pub is_active : Bool
  pub accounts : List AccountTransactionCooldown

abbrev pub next_of : Option AccountTransactionCooldown → Option ℕ
next_of none = none
next_of (some t) = t.next_refresh_at

abbrev pub remaining_of : Option AccountTransactionCooldown → ℕ
remaining_of none = 0
remaining_of (some t) = t.remaining_seconds

abbrev pub all_active : List AccountTransactionCooldown → Bool
all_active [] = false
all_active (t ∷ rest) = all (λ (x : AccountTransactionCooldown). x.is_active) (t ∷ rest)

-- buildTransactionSyncCooldown
unfoldable pub build_transaction_sync_cooldown : List SyncedAccount → ℕ → TransactionSyncCooldown
build_transaction_sync_cooldown accounts now =
    let timings = map (timing now) accounts in
    record {
      duration_seconds = transaction_sync_cooldown_seconds;
      server_time = now;
      next_refresh_at = next_of (earliest timings);
      remaining_seconds = remaining_of (earliest timings);
      is_active = all_active timings;
      accounts = timings;
    }
