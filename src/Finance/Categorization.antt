-- ===== src/Finance/Categorization.antt =====
-- src/finance/services/categorization.service.ts: which category a transaction gets, by rules, by the
-- predictions of two engines, by the bank's category and by the direction of the money. What the
-- engines answer and what a regular expression matches are parameters.

pub mod Ingest
pub mod Steps
pub mod Outcome
pub mod Done
use mytrackr_backend.Prelude.{
  ℕ, Bool, true, false, ◌&&◌, ◌||◌, not, Option, none, some, String, List, [], ◌∷◌, ◌++◌, ◌==◌,
  str_eq, ltb, any, is_some, or_option, or_else, if◌then◌else◌,
}
use mytrackr_backend.Prelude.Codes.{
  Codes, codes, to_lower_case, starts_with, includes, codes_eq, codes_or_empty, is_space,
}
use mytrackr_backend.Reports.Treatment.{TransactionDirection, credit, debit, normalize, has_word}
use mytrackr_backend.Finance.Entities.{
  CategorySource, mono, ai, rule, heuristic, manual, Note, incompatible, unsupported, unknown,
  suggestion, Transaction, MatchType, contains, starts, exact, regex, CategorizationRule,
  AccountCategory, AccountSubCategory, Prediction, Result, Setting,
}
use mytrackr_backend.Finance.Checks.{
  trim_front, trim_end, join_texts, get_categorization_text, ai_auto_apply_threshold,
  is_category_direction_compatible, utility_terms, has_sub_category_evidence,
  needs_ai_categorization,
}
use mytrackr_backend.Finance.Results.{
  find_named, find_child, child_of_result, set_category, has_evidence, sub_name,
  apply_validated_ai_category, apply_result, apply_gemini_prediction,
}

-- resolveAiSubCategory
unfoldable pub resolve_ai_sub_category :
    String → List AccountSubCategory → Option AccountSubCategory
resolve_ai_sub_category predicted [] = none
resolve_ai_sub_category predicted (s ∷ ss) =
    let later = resolve_ai_sub_category predicted ss in
    if codes_eq (normalize (codes s.name)) (normalize (codes predicted)) then some s else later

abbrev pub matches_rule : (matches : Codes → Codes → Bool) → CategorizationRule → Codes → Bool
matches_rule matches r text = elim r.match_type [
  | contains ↦ includes text (to_lower_case r.match_value)
  | starts ↦ starts_with (to_lower_case r.match_value) text
  | exact ↦ codes_eq text (to_lower_case r.match_value)
  | regex ↦ matches r.match_value text
]

-- findOne by the name and the type of the category
unfoldable pub find_sub_category :
    String → String → List AccountSubCategory → Option AccountSubCategory
find_sub_category name t [] = none
find_sub_category name t (s ∷ ss) =
    let later = find_sub_category name t ss in
    if str_eq s.name name && str_eq s.category.type t then some s else later

unfoldable pub find_category : String → List AccountCategory → Option AccountCategory
find_category t [] = none
find_category t (c ∷ cs) =
    let later = find_category t cs in if str_eq c.type t then some c else later

-- categoryRepo.findOne({ where: { type } }), and its id where it is found
abbrev pub set_category_id : String → List AccountCategory → Transaction → Transaction
set_category_id t cats tx = elim (find_category t cats) [
  | none ↦ tx
  | some c ↦ record tx { category_id = some c.id }
]

-- resolveRuleCategoryIds
unfoldable pub resolve_rule_category_ids : Setting → CategorizationRule → Transaction → Transaction
resolve_rule_category_ids e r tx =
    let by_type = set_category_id r.category e.categories tx in
    elim r.sub_category [
      | none ↦ by_type
      | some name ↦ elim (find_sub_category name r.category e.sub_categories) [
        | none ↦ by_type
        | some s ↦ record tx {
          sub_category_id = some s.id;
          category_id = some s.category.id;
          category = some s.category.type;
        }
      ]
    ]

unfoldable pub apply_rule : Setting → CategorizationRule → Transaction → Transaction
apply_rule e r tx = resolve_rule_category_ids e r (record tx {
  category = some r.category;
  sub_category = r.sub_category;
  rule_category = some r.category;
  rule_sub_category = r.sub_category;
  rule_id = some r.id;
  category_source = some rule;
  is_categorised = true;
})

-- applyRules
unfoldable pub apply_rules : Setting → List CategorizationRule → Transaction → Transaction
apply_rules e [] tx = tx
apply_rules e (r ∷ rs) tx =
    let later = apply_rules e rs tx in
    if matches_rule e.matches r (to_lower_case tx.description)
      || matches_rule e.matches r (to_lower_case tx.name)
    then apply_rule e r tx
    else later

-- A confident prediction
unfoldable pub apply_confident : Setting → String → Codes → Transaction → Transaction
apply_confident e predicted text tx = elim (resolve_ai_sub_category predicted e.sub_categories) [
  | none ↦ record tx { ai_category = some predicted; notes = some (unknown predicted) }
  | some s ↦
      if not (is_category_direction_compatible tx.direction s.category.type)
      then record tx { ai_category = some predicted; notes = some (incompatible predicted) }
      else if not (has_sub_category_evidence s.name text)
      then record tx { ai_category = some predicted; notes = some (unsupported predicted) }
      else record tx {
        sub_category = some s.name;
        sub_category_id = some s.id;
        category = some s.category.type;
        category_id = some s.category.id;
        is_categorised = true;
        ai_category = some predicted;
        category_source = some ai;
      }
]

abbrev pub named_category : Option Prediction → Option (String × ℕ)
named_category none = none
named_category (some p) = elim p.category [
  | none ↦ none
  | some c ↦ if str_eq c "Uncategorized" then none else some (c, p.confidence)
]

-- applyAiPrediction
unfoldable pub apply_ai_prediction : Setting → Codes → Transaction → Transaction
apply_ai_prediction e text tx =
    if not (needs_ai_categorization tx) then tx else elim (named_category (e.predict text)) [
      | none ↦ tx
      | some (c, confidence) ↦
          if ltb confidence ai_auto_apply_threshold
          then record tx { ai_category = some c; notes = some (suggestion c) }
          else apply_confident e c text tx
    ]

abbrev pub mono_default : Option String → Transaction → Transaction
mono_default none tx = tx
mono_default (some c) tx =
    if tx.is_categorised
    then tx
    else record tx { category = some c; category_source = some mono; is_categorised = true }

abbrev pub direction_category : TransactionDirection → String
direction_category credit = "INCOME"
direction_category debit = "EXPENSE"

-- The fallback by the direction of the money
unfoldable pub heuristic_fallback : Setting → TransactionDirection → Transaction → Transaction
heuristic_fallback e d tx =
    record (set_category_id (direction_category d) e.categories
      (record tx { category = some (direction_category d) })) {
        heuristic_category = some (direction_category d);
        is_categorised = true;
        category_source = some heuristic;
      }
