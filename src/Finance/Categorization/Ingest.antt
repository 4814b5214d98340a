-- ===== src/Finance/Categorization/Ingest.antt =====
-- ingestTransactions and repairOrphanedTransactions: the rows that are made or read, categorised and
-- handed to the repository.
use mytrackr_backend.Prelude.{
  ℕ, suc, ◌+◌, Bool, true, false, ◌&&◌, ◌||◌, not, Option, none, some, String, List, [], ◌∷◌, map,
  ◌==◌, str_eq, if◌then◌else◌,
}
use mytrackr_backend.Prelude.Codes.{Codes}
use mytrackr_backend.Reports.Treatment.{TransactionDirection}
use mytrackr_backend.Finance.Categorization.{
  apply_rules, apply_ai_prediction, mono_default, heuristic_fallback,
}
use mytrackr_backend.Finance.Results.{apply_gemini_prediction}
use mytrackr_backend.Finance.Checks.{needs_ai_categorization, get_categorization_text}
use mytrackr_backend.Finance.Entities.{Transaction, manual, Setting}

pub record RawTransactionDto : Type 0 where
  pub external_id : Option String
  pub name : Codes
  pub direction : TransactionDirection
  pub description : Codes
  pub mono_category : Option String

-- A manual category stays.
unfoldable pub preserve_manual : Transaction → Transaction
preserve_manual tx = elim tx.category_source [
  | some manual ↦ elim tx.manual_category [
    | none ↦ tx
    | some c ↦ record tx {
      category = some c;
      sub_category = tx.manual_sub_category;
      is_categorised = true;
    }
  ]
  | _ ↦ tx
]

unfoldable pub ai_step : Setting → Codes → Transaction → Transaction
ai_step e text tx = if tx.is_categorised then tx else apply_ai_prediction e text tx

unfoldable pub heuristic_step : Setting → TransactionDirection → Transaction → Transaction
heuristic_step e d tx = if tx.is_categorised then tx else heuristic_fallback e d tx

-- Steps 2 to 4
unfoldable pub later_steps : Setting → RawTransactionDto → Transaction → Transaction
later_steps e d tx =
    heuristic_step e d.direction
      (mono_default d.mono_category (ai_step e (get_categorization_text d.name d.description) tx))

unfoldable pub rule_step : Setting → Transaction → Transaction
rule_step e tx = if tx.is_categorised then tx else apply_rules e e.rules tx

-- All steps, for a stored transaction
unfoldable pub categorise_stored : Setting → RawTransactionDto → Transaction → Transaction
categorise_stored e d tx = later_steps e d (rule_step e (preserve_manual tx))

-- All steps, for a new or a reclaimed one
unfoldable pub categorise_new : Setting → RawTransactionDto → Transaction → Transaction
categorise_new e d tx = later_steps e d (apply_rules e e.rules tx)

abbrev pub same_option : Option ℕ → Option ℕ → Bool
same_option none none = true
same_option (some a) (some b) = a == b
same_option _ _ = false

abbrev pub has_external_id : String → Transaction → Bool
has_external_id x tx = elim tx.external_id [ none ↦ false | some y ↦ str_eq x y ]

-- existingMap.get: the last stored row with the external id
unfoldable pub find_external : String → List Transaction → Option Transaction
find_external x [] = none
find_external x (tx ∷ txs) = elim (find_external x txs) [
  | some later ↦ some later
  | none ↦ if has_external_id x tx then some tx else none
]

abbrev pub find_existing : Option String → List Transaction → Option Transaction
find_existing none txs = none
find_existing (some x) txs = if str_eq x "" then none else find_external x txs

-- The loop's lists, in reverse
pub record Batch : Type 0 where
  pub to_insert : List Transaction
  pub to_update : List Transaction
  pub count : ℕ

abbrev pub create : (business user : Option ℕ) → RawTransactionDto → Transaction
create business user d = record {
  id = none;
  external_id = d.external_id;
  business = business;
  user = user;
  direction = d.direction;
  name = d.name;
  description = d.description;
  category = none;
  sub_category = none;
  mono_category = d.mono_category;
  ai_category = none;
  manual_category = none;
  manual_sub_category = none;
  rule_category = none;
  rule_sub_category = none;
  heuristic_category = none;
  category_source = none;
  category_id = none;
  sub_category_id = none;
  rule_id = none;
  is_categorised = false;
  notes = none;
}

abbrev pub add_new : Transaction → Batch → Batch
add_new tx b = record b { to_insert = tx ∷ b.to_insert; count = suc b.count }

abbrev pub add_stored : Transaction → Batch → Batch
add_stored tx b = record b { to_update = tx ∷ b.to_update }

-- A stored row of the same business
unfoldable pub revisit : Setting → (auto : Bool) → RawTransactionDto → Transaction → Batch → Batch
revisit e auto d tx b =
    if not tx.is_categorised || (auto && needs_ai_categorization tx)
    then add_stored (if auto then categorise_stored e d tx else tx) b
    else b

-- A stored row of another business is claimed.
unfoldable pub reclaim :
    Setting
    → (auto : Bool) → (business user : Option ℕ) → RawTransactionDto
    → Transaction
    → Batch
    → Batch
reclaim e auto business user d tx b =
    let claimed : Transaction = record tx {
      business = business;
      user = user;
      is_categorised = false;
    } in
    add_stored (if auto then categorise_new e d claimed else claimed) b

unfoldable pub insert_new :
    Setting → (auto : Bool) → (business user : Option ℕ) → RawTransactionDto → Batch → Batch
insert_new e auto business user d b =
    add_new (if auto then categorise_new e d (create business user d) else create business user d) b

-- The body of the loop
unfoldable pub ingest_one :
    Setting
    → (auto : Bool) → (business user : Option ℕ) → List Transaction
    → RawTransactionDto
    → Batch
    → Batch
ingest_one e auto business user stored d b = elim (find_existing d.external_id stored) [
  | none ↦ insert_new e auto business user d b
  | some tx ↦
      if same_option tx.business business
      then revisit e auto d tx b
      else reclaim e auto business user d tx b
]

unfoldable pub ingest_all :
    Setting
    → (auto : Bool) → (business user : Option ℕ) → List Transaction
    → List RawTransactionDto
    → Batch
    → Batch
ingest_all e auto business user stored [] b = b
ingest_all e auto business user stored (d ∷ ds) b =
    ingest_all e auto business user stored ds (ingest_one e auto business user stored d b)

abbrev pub gemini : Setting → Batch → Batch
gemini e b = record b {
  to_insert = map (apply_gemini_prediction e) b.to_insert;
  to_update = map (apply_gemini_prediction e) b.to_update;
}

-- ingestTransactions
unfoldable pub ingest_transactions :
    Setting
    → (auto : Bool) → (business user : Option ℕ) → (stored : List Transaction)
    → List RawTransactionDto
    → Batch
ingest_transactions e auto business user stored ds =
    let b =
      ingest_all e auto business user stored ds
        (record { to_insert = []; to_update = []; count = 0 }) in
    if auto then gemini e b else b

-- The rows of repairOrphanedTransactions, and how many were linked to the business and categorised
pub record Repaired : Type 0 where
  pub rows : List Transaction
  pub repaired : ℕ
  pub categorised : ℕ

abbrev pub link : ℕ → Transaction → Transaction
link k tx = record tx { business = some k }

unfoldable pub repair_category : Setting → Transaction → Transaction
repair_category e tx =
    if tx.is_categorised
    then tx
    else heuristic_step e tx.direction
        (apply_ai_prediction e (get_categorization_text tx.name tx.description) tx)

-- repairOrphanedTransactions, on the rows that the query gives
unfoldable pub repair_orphaned_transactions : Setting → ℕ → List Transaction → Repaired
repair_orphaned_transactions e k [] = record { rows = []; repaired = 0; categorised = 0 }
repair_orphaned_transactions e k (tx ∷ txs) =
    let rest = repair_orphaned_transactions e k txs in
    record {
      rows = repair_category e (link k tx) ∷ rest.rows;
      repaired = (if same_option tx.business (some k) then 0 else 1) + rest.repaired;
      categorised = (if tx.is_categorised then 0 else 1) + rest.categorised;
    }
