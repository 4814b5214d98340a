-- ===== src/Mono/Tests.antt =====
-- The bank feed on two stored rows and a small download.

use mytrackr_backend.Prelude.{
  ℕ, ◌≤◌, ◌≡◌, ◌≢◌, refl, Option, none, some, String, List, [], ◌∷◌, ◌==◌, All, count,
}
use mytrackr_backend.Prelude.Int.{pos}
use mytrackr_backend.Prelude.Codes.{Codes, codes, is_space, codes_eq}
use mytrackr_backend.Mono.Identity.{
  Update, Reconciled, reconcile_mono_transactions, index_rows, ordered, insert_row, index_ids,
  find_id, put_all, visit_all, put, visit, match_content, fingerprint, collapse, first_free, bucket,
  bucket_rows, bucket_row, add_alias, known_rows, same_key,
}
use mytrackr_backend.Mono.Entities.{Content, MonoTransaction, Incoming, safe, missing}
use mytrackr_backend.Mono.Identity.Conflicts.{Shared, reconcile_mono_transactions_conflicts}
use mytrackr_backend.Mono.Identity.Claims.{IsClaim, IsLasting}
use mytrackr_backend.Mono.Identity.Outcome.{
  reconcile_mono_transactions-IsClaim, reconcile_mono_transactions-IsLasting,
}
use mytrackr_backend.Mono.Cooldown.{SyncedAccount}

abbrev same : Codes → Codes
same c = c

abbrev fee : Content
fee = record {
  date = some (pos 5);
  amount = safe (pos 50);
  balance = missing;
  type = codes "debit";
  currency = [];
  narration = codes "SMS  fee";
}

abbrev stored : ℕ → String → Option ℕ → MonoTransaction
stored n p deleted = record {
  id = n;
  mono_transaction_id = p;
  provider_id_aliases = [];
  content = fee;
  created_at = n;
  deleted_at = deleted;
}

abbrev rows : List MonoTransaction
rows = stored 1 "a" none ∷ stored 2 "b" (some 9) ∷ []

-- The first is a renamed row, the second a deleted one, and the third is new.
abbrev download : List Incoming
download =
    record { id = "x"; content = fee }
    ∷ record { id = "b"; content = fee }
    ∷ record { id = "z"; content = fee }
    ∷ []

abbrev reconciled : Reconciled
reconciled = record {
  transactions = record { id = "a"; content = fee } ∷ record { id = "z"; content = fee } ∷ [];
  aliases = record { id = 1; provider_id_aliases = "x" ∷ [] } ∷ [];
}

reconciled_lem : reconcile_mono_transactions same same download rows ≡ some reconciled
unfolding reconcile_mono_transactions index_rows ordered insert_row index_ids find_id put_all
    visit_all put visit match_content fingerprint collapse is_space first_free bucket bucket_rows
    bucket_row add_alias known_rows same_key codes_eq
reconciled_lem = refl

reconcile_mono_transactions-IsClaim_example :
    All (IsClaim same same download rows) reconciled.aliases
    × ((k : ℕ) → count (λ (u : Update). u.id == k) reconciled.aliases ≤ 1)
reconcile_mono_transactions-IsClaim_example =
    reconcile_mono_transactions-IsClaim same same download rows reconciled reconciled_lem

reconcile_mono_transactions-IsLasting_example : All (IsLasting rows) reconciled.transactions
reconcile_mono_transactions-IsLasting_example =
    reconcile_mono_transactions-IsLasting same same download rows reconciled reconciled_lem

reconcile_mono_transactions_conflicts_example :
    (reconcile_mono_transactions same same download rows ≡ none
      → (q : String) × (r : MonoTransaction) × (s : MonoTransaction) × Shared q r s rows
        × (s.id ≢ r.id))
    × ((res : Reconciled)
        → reconcile_mono_transactions same same download rows ≡ some res
        → (q : String) (r s : MonoTransaction) → Shared q r s rows
        → s.id ≡ r.id)
reconcile_mono_transactions_conflicts_example =
    reconcile_mono_transactions_conflicts same same download rows

-- Two rows with one id: the code throws.
conflict :
    reconcile_mono_transactions same same [] (stored 1 "a" none ∷ stored 2 "a" none ∷ []) ≡ none
unfolding reconcile_mono_transactions index_rows ordered insert_row index_ids find_id
conflict = refl

abbrev accounts : List SyncedAccount
accounts =
    record { mono_account_id = "m"; last_synced_at = some 4000 }
    ∷ record { mono_account_id = "n"; last_synced_at = some 9000 }
    ∷ []
