-- ===== src/Integrations/Paystack/Sync.antt =====
-- src/integrations/services/integrations.service.ts: the Paystack accounts of the businesses, and
-- the synchronisation of one.
use mytrackr_backend.Prelude.{
  ℕ, ◌+◌, ◌-◌, ◌*◌, Bool, ◌&&◌, Option, none, some, String, List, [], ◌∷◌, ◌==◌, length, or_else,
  if◌then◌else◌,
}
use mytrackr_backend.Calendar.{ms_per_day}
use mytrackr_backend.Integrations.Entities.{PaystackConnection}
use mytrackr_backend.Integrations.Ledger.{Transaction}
use mytrackr_backend.Integrations.Paystack.{
  Reply, rows, failed, Charge, Refund, Paystack, fetch_all, import_all,
}

pub record Accounts : Type 0 where
  pub connections : List PaystackConnection
  pub transactions : List Transaction
  pub next_id : ℕ

unfoldable pub find_connection :
    (PaystackConnection → Bool) → List PaystackConnection → Option PaystackConnection
find_connection p [] = none
find_connection p (c ∷ cs) = let later = find_connection p cs in if p c then some c else later

-- save of a connection that was read
unfoldable pub save_connection :
    PaystackConnection → List PaystackConnection → List PaystackConnection
save_connection r [] = []
save_connection r (c ∷ cs) = (if c.id == r.id then r else c) ∷ save_connection r cs

abbrev pub of_business : ℕ → PaystackConnection → Bool
of_business k c = c.business == k

abbrev pub is_connected : ℕ → PaystackConnection → Bool
is_connected k c = c.business == k && c.is_active

pub data PaystackError : Type 0 where
  invalid_key not_connected invalid_range : PaystackError
  request_failed : String → PaystackError

pub data Answer (A : Type 0) : Type 0 where
  answered : A → Answer A
  refused : PaystackError → Answer A

pub record SyncResult : Type 0 where
  pub imported : ℕ
  pub skipped : ℕ
  pub fetched_transactions : ℕ
  pub fetched_refunds : ℕ

abbrev pub fetched : SyncResult → ℕ
fetched r = r.fetched_transactions + r.fetched_refunds

-- The bounds of the request, or from the last synchronisation, or from thirty days ago, to now
abbrev pub start_date : (now : ℕ) → PaystackConnection → Option (Option ℕ) → Option ℕ
start_date now c (some t) = t
start_date now c none = some (or_else c.last_synced_at (now - 30 * ms_per_day))

abbrev pub end_date : (now : ℕ) → Option (Option ℕ) → Option ℕ
end_date now (some t) = t
end_date now none = some now

-- Both bounds, where both are dates
abbrev pub range_of : Option ℕ → Option ℕ → Option (ℕ × ℕ)
range_of none to = none
range_of (some from) none = none
range_of (some from) (some to) = some (from, to)

abbrev pub set_error : String → PaystackConnection → PaystackConnection
set_error message c = record c { last_sync_error = some message }

abbrev pub set_synced : (now end_at : ℕ) → PaystackConnection → PaystackConnection
set_synced now end_at c = record c {
  last_synced_at = some end_at;
  last_successful_sync_at = some now;
  last_sync_error = none;
}

abbrev pub save_account : PaystackConnection → Accounts → Accounts
save_account c a = record a { connections = save_connection c a.connections }

-- The catch of syncPaystackTransactions
abbrev pub sync_failed : PaystackConnection → String → Accounts → Answer SyncResult × Accounts
sync_failed c message a = (refused (request_failed message), save_account (set_error message c) a)

-- The business of the connection is the user's: it was found by it.
abbrev pub sync_imported :
    Paystack
    → PaystackConnection
    → (user end_at : ℕ) → List Charge
    → List Refund
    → Accounts
    → Answer SyncResult × Accounts
sync_imported g c user end_at cs rs a =
    let p = import_all c.business user cs rs a.transactions in
    let b : Accounts = record a { transactions = p.ledger } in
    if p.has_thrown then sync_failed c g.duplicate_key b else (
      answered (record {
        imported = p.imported;
        skipped = p.skipped;
        fetched_transactions = length cs;
        fetched_refunds = length rs;
      }),
      save_account (set_synced g.now end_at c) b,
    )

-- The refunds are fetched when the charges have been.
abbrev pub sync_refunds :
    Paystack
    → PaystackConnection
    → (user end_at : ℕ) → List Charge
    → Option (Reply Refund)
    → Accounts
    → Option (Answer SyncResult × Accounts)
sync_refunds g c user end_at cs none a = none
sync_refunds g c user end_at cs (some (failed message)) a = some (sync_failed c message a)
sync_refunds g c user end_at cs (some (rows rs)) a = some (sync_imported g c user end_at cs rs a)

abbrev pub sync_charges :
    Paystack
    → PaystackConnection
    → (user end_at : ℕ) → Option (Reply Charge)
    → Option (Reply Refund)
    → Accounts
    → Option (Answer SyncResult × Accounts)
sync_charges g c user end_at none refunds a = none
sync_charges g c user end_at (some (failed message)) refunds a = some (sync_failed c message a)
sync_charges g c user end_at (some (rows cs)) refunds a = sync_refunds g c user end_at cs refunds a

abbrev pub sync_range :
    (fuel : ℕ)
    → Paystack
    → PaystackConnection
    → (user : ℕ) → Option (ℕ × ℕ)
    → Accounts
    → Option (Answer SyncResult × Accounts)
sync_range fuel g c user none a = some (refused invalid_range, a)
sync_range fuel g c user (some (from, to)) a =
    let key = g.decrypt c.encrypted_secret_key in
    sync_charges g c user to (fetch_all (g.charges key from to) fuel)
      (fetch_all (g.refunds key from to) fuel) a

-- syncPaystackTransactions
unfoldable pub sync_paystack_transactions :
    (fuel : ℕ)
    → Paystack
    → (business user : ℕ) → (start end_at : Option (Option ℕ)) → Accounts
    → Option (Answer SyncResult × Accounts)
sync_paystack_transactions fuel g business user start end_at a =
    elim (find_connection (is_connected business) a.connections) [
      | none ↦ some (refused not_connected, a)
      | some c ↦
          sync_range fuel g c user (range_of (start_date g.now c start) (end_date g.now end_at)) a
    ]
