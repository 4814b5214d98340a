-- ===== src/Finance/Tests.antt =====
-- An ingestion of two transactions with one rule, against one stored row.
use mytrackr_backend.Prelude.{
  ◌+◌, ◌≤◌, ◌≡◌, refl, true, false, none, some, String, List, [], ◌∷◌, All, length,
}
use mytrackr_backend.Prelude.Codes.{codes}
use mytrackr_backend.Reports.Treatment.{TransactionDirection, credit, debit}
use mytrackr_backend.Finance.Checks.{is_category_direction_compatible}
use mytrackr_backend.Finance.Entities.{Transaction, ai, Setting, contains}
use mytrackr_backend.Finance.Categorization.Ingest.{RawTransactionDto, create, ingest_transactions}
use mytrackr_backend.Finance.Categorization.Steps.{Fits}
use mytrackr_backend.Finance.Categorization.Outcome.{ingest_transactions-Fits}
use mytrackr_backend.Finance.Categorization.Done.{ingest_transactions_categorises}

abbrev setting : Setting
setting = record {
  rules =
      record {
        id = 1;
        match_type = contains;
        match_value = codes "rent";
        category = "EXPENSE";
        sub_category = some "Rent";
      }
      ∷ [];
  categories = record { id = 1; name = "Expenses"; type = "EXPENSE" } ∷ [];
  sub_categories = [];
  matches = λ _ _. false;
  predict = λ _. some (record { category = some "Salary"; confidence = 900000 });
  answer = λ _. none;
}

abbrev dto : String → TransactionDirection → String → RawTransactionDto
dto x d text = record {
  external_id = some x;
  name = [];
  direction = d;
  description = codes text;
  mono_category = none;
}

abbrev stored : List Transaction
stored =
    record (create (some 1) (some 1) (dto "x" debit "old")) {
      category = some "EXPENSE";
      category_source = some ai;
    }
    ∷ []

abbrev download : List RawTransactionDto
download = dto "x" debit "old" ∷ dto "y" credit "Gift" ∷ []

ingest_transactions_categorises_example :
    let b = ingest_transactions setting true (some 1) (some 1) stored download in
    All (λ (tx : Transaction). tx.is_categorised ≡ true) b.to_insert
    × All (λ (tx : Transaction). tx.is_categorised ≡ true) b.to_update
    × (b.count ≡ length b.to_insert)
    × (length b.to_insert + length b.to_update ≤ length download)
ingest_transactions_categorises_example =
    ingest_transactions_categorises setting (some 1) (some 1) stored download

debit_expense : is_category_direction_compatible debit "EXPENSE" ≡ true
unfolding is_category_direction_compatible
debit_expense = refl

ingest_transactions-Fits_example :
    let b = ingest_transactions setting true (some 1) (some 1) stored download in
    All Fits b.to_insert × All Fits b.to_update
ingest_transactions-Fits_example =
    ingest_transactions-Fits setting true (some 1) (some 1) stored download
      ((λ _. ("EXPENSE", refl, debit_expense)), tt)
