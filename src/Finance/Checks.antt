-- ===== src/Finance/Checks.antt =====
-- What the categorisation checks of a text, a direction and a transaction.
use mytrackr_backend.Prelude.{
  ℕ, Bool, true, false, ◌&&◌, ◌||◌, not, some, String, List, [], ◌∷◌, ◌++◌, str_eq, any, is_some,
  if◌then◌else◌,
}
use mytrackr_backend.Prelude.Codes.{Codes, codes, includes, codes_eq, is_space}
use mytrackr_backend.Reports.Treatment.{TransactionDirection, credit, debit, normalize, has_word}
use mytrackr_backend.Finance.Entities.{manual, Transaction}

-- trim()
unfoldable pub trim_front : Codes → Codes
trim_front [] = []
trim_front (c ∷ cs) = let rest = trim_front cs in if is_space c then rest else c ∷ cs

unfoldable pub trim_end : Codes → Codes
trim_end [] = []
trim_end (c ∷ cs) = elim (trim_end cs) [
  | [] ↦ if is_space c then [] else c ∷ []
  | ◌∷◌ d ds ↦ c ∷ d ∷ ds
]

abbrev pub join_texts : Codes → Codes → Codes
join_texts [] b = b
join_texts (c ∷ cs) [] = c ∷ cs
join_texts (c ∷ cs) (d ∷ ds) =
    if codes_eq (c ∷ cs) (d ∷ ds) then c ∷ cs else (c ∷ cs) ++ codes " - " ++ d ∷ ds

-- getCategorizationText: the two texts that are there, once each
unfoldable pub get_categorization_text : (name description : Codes) → Codes
get_categorization_text name description =
    join_texts (trim_end (trim_front name)) (trim_end (trim_front description))

abbrev pub ai_auto_apply_threshold : ℕ
ai_auto_apply_threshold = 800000

-- isCategoryDirectionCompatible
unfoldable pub is_category_direction_compatible : TransactionDirection → String → Bool
is_category_direction_compatible credit t =
    any (λ c. str_eq c t) ("INCOME" ∷ "ASSET" ∷ "LIABILITY" ∷ "EQUITY" ∷ "TRANSFER" ∷ [])
is_category_direction_compatible debit t =
    any (λ c. str_eq c t) ("EXPENSE" ∷ "COGS" ∷ "ASSET" ∷ "LIABILITY" ∷ "EQUITY" ∷ "TRANSFER" ∷ [])

abbrev pub utility_terms : List String
utility_terms =
    "electric" ∷ "electricity" ∷ "water" ∷ "waste" ∷ "utility" ∷ "utilities" ∷ "nepa" ∷ "phcn"
    ∷ "disco" ∷ "ikeja electric" ∷ "eko electric" ∷ "aedc" ∷ "ibedc" ∷ "kedco" ∷ "phed" ∷ "jed"
    ∷ "yedc" ∷ []

-- hasSubCategoryEvidence; normalizeCategoryName is the `normalize` of the accounting treatment
unfoldable pub has_sub_category_evidence : String → Codes → Bool
has_sub_category_evidence name text =
    if includes (normalize (codes name)) (codes "utlity bill")
    then any (λ term. has_word (codes term) true (normalize text)) utility_terms
    else true

-- needsAiCategorization
unfoldable pub needs_ai_categorization : Transaction → Bool
needs_ai_categorization tx =
    not (elim tx.category_source [ some manual ↦ true | _ ↦ false ])
    && (not (is_some tx.category) || not (is_some tx.sub_category))
