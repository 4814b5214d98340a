-- ===== src/Finance/Categorization/Steps.antt =====
-- What each step keeps: a category from an engine agrees with the direction of the money, and what
-- is categorised stays so.
use mytrackr_backend.Prelude.{
  ◌≡◌, ◌≢◌, option_both, sym, refl, ◌∙◌, true, ◌||◌, not, Option, none, some, String, List, [], ◌∷◌,
  Option-cases, inl, inr, arith, ltb, or_option, if_both,
}
use mytrackr_backend.Prelude.Codes.{Codes, to_lower_case}
use mytrackr_backend.Reports.Treatment.{TransactionDirection}
use mytrackr_backend.Finance.Categorization.{
  find_category, set_category_id, resolve_rule_category_ids, apply_rule, apply_rules,
  apply_confident, apply_ai_prediction, named_category, mono_default, heuristic_fallback,
  find_sub_category, resolve_ai_sub_category, matches_rule,
}
use mytrackr_backend.Finance.Results.{
  apply_validated_ai_category, apply_result, apply_gemini_prediction, find_named, child_of_result,
  set_category, has_evidence,
}
use mytrackr_backend.Finance.Checks.{
  is_category_direction_compatible, needs_ai_categorization, has_sub_category_evidence,
  get_categorization_text, ai_auto_apply_threshold,
}
use mytrackr_backend.Finance.Entities.{
  Transaction, ai, Setting, CategorizationRule, AccountCategory, AccountSubCategory, Result,
}

-- A transaction that an engine categorised has a category that its direction allows.
abbrev pub Fits : Transaction → Type 0
Fits tx =
    tx.category_source ≡ some ai
    → (c : String) × (tx.category ≡ some c)
      × (is_category_direction_compatible tx.direction c ≡ true)

-- Another source than the engines
IsOther : Transaction → Type 0
IsOther tx = tx.category_source ≢ some ai

by_other : (tx : Transaction) → tx.category_source ≢ some ai → Fits tx
by_other tx other k = elim (other k) [ ]

set_category_id-source :
    (t : String) (cats : List AccountCategory) (tx : Transaction)
    → (set_category_id t cats tx).category_source ≡ tx.category_source
set_category_id-source t cats tx =
    option_both (λ (x : Transaction). x.category_source ≡ tx.category_source) (find_category t cats)
      tx (λ (c : AccountCategory). record tx { category_id = some c.id }) refl (λ c _. refl)

resolve_rule_category_ids-source :
    (e : Setting) (r : CategorizationRule) (tx : Transaction)
    → (resolve_rule_category_ids e r tx).category_source ≡ tx.category_source
unfolding resolve_rule_category_ids
resolve_rule_category_ids-source e r tx = elim (Option-cases r.sub_category) [
  | inl no_name ↦
      rw (no_name, resolve_rule_category_ids) (set_category_id-source r.category e.categories tx)
  | inr (name, named) ↦ elim (Option-cases (find_sub_category name r.category e.sub_categories)) [
    | inl missing ↦
        rw (named, missing, resolve_rule_category_ids)
          (set_category_id-source r.category e.categories tx)
    | inr (s, found) ↦ rw (named, found, resolve_rule_category_ids) refl
  ]
]

apply_rule-Fits :
    (e : Setting) (r : CategorizationRule) (tx : Transaction) → Fits (apply_rule e r tx)
unfolding apply_rule
apply_rule-Fits e r tx =
    by_other (apply_rule e r tx)
      (λ k. let same = sym (resolve_rule_category_ids-source e r _) ∙ k in cc)

pub apply_rules-Fits :
    (e : Setting) (rs : List CategorizationRule) (tx : Transaction)
    → Fits tx
    → Fits (apply_rules e rs tx)
unfolding apply_rules
apply_rules-Fits e [] tx h = h
apply_rules-Fits e (r ∷ rs) tx h =
    if_both Fits
      (matches_rule e.matches r (to_lower_case tx.description)
        || matches_rule e.matches r (to_lower_case tx.name))
      (apply_rule e r tx) (apply_rules e rs tx) (λ _. apply_rule-Fits e r tx)
      (λ _. apply_rules-Fits e rs tx h)

apply_confident-Fits :
    (e : Setting) (predicted : String) (text : Codes) (tx : Transaction)
    → Fits tx
    → Fits (apply_confident e predicted text tx)
unfolding apply_confident
apply_confident-Fits e predicted text tx h =
    option_both Fits (resolve_ai_sub_category predicted e.sub_categories) _ _ h (λ s _.
      if_both Fits (not (is_category_direction_compatible tx.direction s.category.type)) _ _
        (λ _. h)
        (λ fits.
          if_both Fits (not (has_sub_category_evidence s.name text)) _ _ (λ _. h)
            (λ _ _. (s.category.type, refl, ground arith))))

pub apply_ai_prediction-Fits :
    (e : Setting) (text : Codes) (tx : Transaction) → Fits tx → Fits (apply_ai_prediction e text tx)
unfolding apply_ai_prediction
apply_ai_prediction-Fits e text tx h =
    if_both Fits (not (needs_ai_categorization tx)) _ _ (λ _. h)
      (λ _. option_both Fits (named_category (e.predict text)) _ _ h (λ (c, confidence) _.
        if_both Fits (ltb confidence ai_auto_apply_threshold) _ _ (λ _. h)
          (λ _. apply_confident-Fits e c text tx h)))

pub mono_default-Fits : (o : Option String) (tx : Transaction) → Fits tx → Fits (mono_default o tx)
mono_default-Fits none tx h = h
mono_default-Fits (some c) tx h =
    if_both Fits tx.is_categorised _ _ (λ _. h) (λ _ k. let bad : ⊥ = cc in elim bad [ ])

pub heuristic_fallback-Fits :
    (e : Setting) (d : TransactionDirection) (tx : Transaction) → Fits (heuristic_fallback e d tx)
unfolding heuristic_fallback
heuristic_fallback-Fits e d tx = by_other (heuristic_fallback e d tx) (λ k. cc)

set_category-Fits :
    (c : AccountCategory) (o : Option AccountSubCategory) (tx : Transaction)
    → is_category_direction_compatible tx.direction c.type ≡ true
    → Fits (set_category c o tx)
set_category-Fits c none tx fits _ = (c.type, refl, fits)
set_category-Fits c (some s) tx fits _ = (c.type, refl, fits)

set_category-IsDone :
    (c : AccountCategory) (o : Option AccountSubCategory) (tx : Transaction)
    → (set_category c o tx).is_categorised ≡ true
set_category-IsDone c none tx = refl
set_category-IsDone c (some s) tx = refl

apply_validated_ai_category-Fits :
    (e : Setting) (r : Result) (tx : Transaction)
    → Fits tx
    → Fits (apply_validated_ai_category e r tx)
unfolding apply_validated_ai_category
apply_validated_ai_category-Fits e r tx h =
    option_both Fits (find_named r e.categories) _ _ h (λ c _.
      if_both Fits (not (is_category_direction_compatible tx.direction c.type)) _ _ (λ _. h)
        (λ fits.
          if_both Fits
            (not (
              has_evidence (child_of_result r c e.sub_categories)
                (get_categorization_text tx.name tx.description)))
            _ _ (λ _. h)
            (λ _. set_category-Fits c (child_of_result r c e.sub_categories) tx (ground arith))))

pub apply_gemini_prediction-Fits :
    (e : Setting) (tx : Transaction) → Fits tx → Fits (apply_gemini_prediction e tx)
unfolding apply_gemini_prediction apply_result
apply_gemini_prediction-Fits e tx h =
    if_both Fits (not (needs_ai_categorization tx)) _ _ (λ _. h)
      (λ _. option_both Fits (e.answer tx) _ _ h (λ r _.
        if_both Fits (ltb r.confidence ai_auto_apply_threshold) _ _
          (λ _. option_both Fits (or_option r.category_name r.category_type) _ _ h (λ c _. h))
          (λ _. apply_validated_ai_category-Fits e r tx h)))

-- What is categorised
abbrev pub IsDone : Transaction → Type 0
IsDone tx = tx.is_categorised ≡ true

apply_validated_ai_category-IsDone :
    (e : Setting) (r : Result) (tx : Transaction)
    → IsDone tx
    → IsDone (apply_validated_ai_category e r tx)
unfolding apply_validated_ai_category
apply_validated_ai_category-IsDone e r tx h =
    option_both IsDone (find_named r e.categories) _ _ h (λ c _.
      if_both IsDone (not (is_category_direction_compatible tx.direction c.type)) _ _ (λ _. h)
        (λ _.
          if_both IsDone
            (not (
              has_evidence (child_of_result r c e.sub_categories)
                (get_categorization_text tx.name tx.description)))
            _ _ (λ _. h) (λ _. set_category-IsDone c (child_of_result r c e.sub_categories) tx)))

pub apply_gemini_prediction-IsDone :
    (e : Setting) (tx : Transaction) → IsDone tx → IsDone (apply_gemini_prediction e tx)
unfolding apply_gemini_prediction apply_result
apply_gemini_prediction-IsDone e tx h =
    if_both IsDone (not (needs_ai_categorization tx)) _ _ (λ _. h)
      (λ _. option_both IsDone (e.answer tx) _ _ h (λ r _.
        if_both IsDone (ltb r.confidence ai_auto_apply_threshold) _ _
          (λ _. option_both IsDone (or_option r.category_name r.category_type) _ _ h (λ c _. h))
          (λ _. apply_validated_ai_category-IsDone e r tx h)))
