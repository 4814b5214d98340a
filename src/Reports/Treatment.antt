-- ===== src/Reports/Treatment.antt =====
-- src/common/accounting/accounting-treatment.ts: what a transaction is in the books.
pub mod Normal
pub mod Direction
use mytrackr_backend.Prelude.{
  ℕ, Bool, true, false, ◌&&◌, ◌||◌, not, Option, none, some, String, List, [], ◌∷◌, ◌++◌, ◌==◌,
  str_eq, any, if◌then◌else◌,
}
use mytrackr_backend.Prelude.Int.{ℤ}
use mytrackr_backend.Prelude.Codes.{
  Codes, codes, codes_or_empty, is_word, to_lower_case, starts_with, includes,
}

pub data AccountingTreatment : Type 0 where
  revenue cogs operating_expense other_expense refund_reversal owner_contribution :
      AccountingTreatment
  owner_drawing loan_received loan_repayment asset_movement internal_transfer : AccountingTreatment
  unclassified : AccountingTreatment

pub data TransactionDirection : Type 0 where
  credit debit : TransactionDirection

-- The columns of a transaction that the statements read; amounts are in hundredths. The stored
-- accounting type is that of the sub-category row, of which the column allows the same values.
pub record Transaction : Type 0 where
  pub id : ℕ
  pub business : Option ℕ
  pub date : ℕ
  pub amount : ℤ
  pub direction : TransactionDirection
  pub name : Option String
  pub description : Option String
  pub category : Option String
  pub sub_category : Option String
  pub stored_type : Option AccountingTreatment
  pub is_categorised : Bool
  pub deleted_at : Option ℕ

abbrev pub is_credit : Transaction → Bool
is_credit tx = elim tx.direction [ credit ↦ true | debit ↦ false ]

-- A run of other characters is one space, and the ends are trimmed: `pending` says that a space is
-- due before the next word character.
unfoldable pub squeeze : (pending : Bool) → Codes → Codes
squeeze pending [] = []
squeeze pending (c ∷ cs) =
    let spaced = squeeze true cs in
    let next = squeeze false cs in
    if is_word c then (if pending then 32 ∷ c ∷ next else c ∷ next) else spaced

unfoldable pub trim_start : Codes → Codes
trim_start [] = []
trim_start (c ∷ cs) = if c == 32 then cs else c ∷ cs

-- normalize: lower case, /[^a-z0-9]+/g to a space, trim
unfoldable pub normalize : Codes → Codes
normalize text = trim_start (squeeze false (to_lower_case text))

-- The word boundary after a match
abbrev ends_word : Codes → Bool
ends_word [] = true
ends_word (c ∷ cs) = not (is_word c)

unfoldable pub starts_with_word : (term text : Codes) → Bool
starts_with_word [] text = ends_word text
starts_with_word (p ∷ ps) [] = false
starts_with_word (p ∷ ps) (c ∷ cs) = let rest = starts_with_word ps cs in p == c && rest

-- /\b(term)\b/.test(text), for a term that starts and ends with word characters: `boundary` says
-- that a word may start here.
unfoldable pub has_word : (term : Codes) → (boundary : Bool) → (text : Codes) → Bool
has_word term boundary [] = false
has_word term boundary (c ∷ cs) =
    let later = has_word term (not (is_word c)) cs in
    (boundary && starts_with_word term (c ∷ cs)) || later

abbrev pub other_expense_terms : List String
other_expense_terms = "tax payment" ∷ "tax" ∷ "interest on loan" ∷ "interest" ∷ "loan interest" ∷ []

-- savings?|piggyvest|investment|loan repayment
abbrev pub movement_terms : List String
movement_terms = "saving" ∷ "savings" ∷ "piggyvest" ∷ "investment" ∷ "loan repayment" ∷ []

abbrev pub has_category : String → Transaction → Bool
has_category k tx = elim tx.category [ none ↦ false | some c ↦ str_eq c k ]

-- !tx.isCategorised || !tx.category
abbrev pub is_unsorted : Transaction → Bool
is_unsorted tx = not tx.is_categorised || elim tx.category [ none ↦ true | some c ↦ str_eq c "" ]

abbrev sub_category_text : Transaction → Codes
sub_category_text tx = normalize (codes_or_empty tx.sub_category)

-- normalize(`${tx.name || ''} ${tx.description || ''}`)
abbrev transaction_text : Transaction → Codes
transaction_text tx = normalize (codes_or_empty tx.name ++ 32 ∷ codes_or_empty tx.description)

unfoldable pub is_refund : Transaction → Bool
is_refund tx =
    has_category "TRANSFER" tx
    && (includes (sub_category_text tx) (codes "refund")
        || includes (sub_category_text tx) (codes "reversal"))

unfoldable pub is_movement : Transaction → Bool
is_movement tx =
    has_category "ASSET" tx
    || (has_category "TRANSFER" tx
        && any (λ term. has_word (codes term) true (transaction_text tx)) movement_terms)

unfoldable pub is_other_expense : Transaction → Bool
is_other_expense tx = any (λ term. includes (sub_category_text tx) (codes term)) other_expense_terms

-- The branches for what is neither a refund nor a movement of assets
unfoldable pub by_category : Transaction → AccountingTreatment
by_category tx =
    if has_category "EQUITY" tx
    then (if is_credit tx then owner_contribution else owner_drawing)
    else if has_category "LIABILITY" tx
    then (if is_credit tx then loan_received else loan_repayment)
    else if has_category "TRANSFER" tx
    then internal_transfer
    else if has_category "INCOME" tx && is_credit tx
    then revenue
    else if has_category "COGS" tx && not (is_credit tx)
    then cogs
    else if has_category "EXPENSE" tx && not (is_credit tx)
    then (if is_other_expense tx then other_expense else operating_expense)
    else unclassified

-- The treatment of a sorted transaction without a stored type
unfoldable pub derived_treatment : Transaction → AccountingTreatment
derived_treatment tx =
    if is_refund tx
    then refund_reversal
    else if is_movement tx
    then asset_movement
    else by_category tx

-- getAccountingTreatment
unfoldable pub get_accounting_treatment : Transaction → AccountingTreatment
get_accounting_treatment tx =
    if is_unsorted tx
    then unclassified
    else elim tx.stored_type [ some t ↦ t | none ↦ derived_treatment tx ]

-- isOperatingExpense
unfoldable pub is_operating_expense : AccountingTreatment → Bool
is_operating_expense cogs = true
is_operating_expense operating_expense = true
is_operating_expense other_expense = true
is_operating_expense _ = false
