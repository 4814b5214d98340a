-- ===== src/Finance/Results.antt =====
-- What is done with the results of the second engine (applyGeminiPredictions and
-- applyValidatedAiCategory of categorization.service.ts).
use mytrackr_backend.Prelude.{
  ℕ, Bool, true, ◌&&◌, ◌||◌, not, Option, none, some, String, List, [], ◌∷◌, ◌==◌, ltb, or_option,
  or_else, if◌then◌else◌,
}
use mytrackr_backend.Prelude.Codes.{Codes, codes, to_lower_case, codes_eq, codes_or_empty}
use mytrackr_backend.Finance.Entities.{
  ai, incompatible, unsupported, suggestion, Transaction, AccountCategory, AccountSubCategory,
  Result, Setting,
}
use mytrackr_backend.Finance.Checks.{
  get_categorization_text, ai_auto_apply_threshold, is_category_direction_compatible,
  has_sub_category_evidence, needs_ai_categorization,
}

-- The category of a result, by its name or its type
unfoldable pub find_named : Result → List AccountCategory → Option AccountCategory
find_named r [] = none
find_named r (c ∷ cs) =
    let later = find_named r cs in
    if codes_eq (to_lower_case (codes c.name)) (to_lower_case (codes_or_empty r.category_name))
      || codes_eq (to_lower_case (codes c.type)) (to_lower_case (codes_or_empty r.category_type))
    then some c
    else later

unfoldable pub find_child : ℕ → String → List AccountSubCategory → Option AccountSubCategory
find_child k name [] = none
find_child k name (s ∷ ss) =
    let later = find_child k name ss in
    if s.category.id == k && codes_eq (to_lower_case (codes s.name)) (to_lower_case (codes name))
    then some s
    else later

abbrev pub child_of_result :
    Result → AccountCategory → List AccountSubCategory → Option AccountSubCategory
child_of_result r c ss = elim r.sub_category_name [
  | none ↦ none
  | some name ↦ find_child c.id name ss
]

abbrev pub set_category : AccountCategory → Option AccountSubCategory → Transaction → Transaction
set_category c none tx = record tx {
  category = some c.type;
  category_id = some c.id;
  sub_category = none;
  sub_category_id = none;
  ai_category = some c.type;
  category_source = some ai;
  is_categorised = true;
}
set_category c (some s) tx = record tx {
  category = some c.type;
  category_id = some c.id;
  sub_category = some s.name;
  sub_category_id = some s.id;
  ai_category = some s.name;
  category_source = some ai;
  is_categorised = true;
}

abbrev pub has_evidence : Option AccountSubCategory → Codes → Bool
has_evidence none text = true
has_evidence (some s) text = has_sub_category_evidence s.name text

abbrev pub sub_name : Option AccountSubCategory → String
sub_name none = ""
sub_name (some s) = s.name

-- applyValidatedAiCategory
unfoldable pub apply_validated_ai_category : Setting → Result → Transaction → Transaction
apply_validated_ai_category e r tx = elim (find_named r e.categories) [
  | none ↦ tx
  | some c ↦
      let child = child_of_result r c e.sub_categories in
      if not (is_category_direction_compatible tx.direction c.type)
      then record tx { notes = some (incompatible c.type) }
      else if not (has_evidence child (get_categorization_text tx.name tx.description))
      then record tx { notes = some (unsupported (sub_name child)) }
      else set_category c child tx
]

-- What is done with the result for a transaction
unfoldable pub apply_result : Setting → Result → Transaction → Transaction
apply_result e r tx =
    if ltb r.confidence ai_auto_apply_threshold
    then elim (or_option r.category_name r.category_type) [
      | none ↦ tx
      | some c ↦ record tx { notes = some (suggestion (or_else r.sub_category_name c)) }
    ]
    else apply_validated_ai_category e r tx

-- applyGeminiPredictions, on one of the transactions
unfoldable pub apply_gemini_prediction : Setting → Transaction → Transaction
apply_gemini_prediction e tx =
    if not (needs_ai_categorization tx)
    then tx
    else elim (e.answer tx) [ none ↦ tx | some r ↦ apply_result e r tx ]
