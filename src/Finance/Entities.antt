-- ===== src/Finance/Entities.antt =====
-- The rows of src/finance/entities that the categorisation reads and writes, and what it is asked with.
use mytrackr_backend.Prelude.{ℕ, Bool, Option, String, List}
use mytrackr_backend.Prelude.Codes.{Codes}
use mytrackr_backend.Reports.Treatment.{TransactionDirection}

pub data CategorySource : Type 0 where
  mono ai rule heuristic manual : CategorySource

-- The remark about a prediction that is not applied
pub data Note : Type 0 where
  incompatible unsupported unknown suggestion : String → Note

-- The columns that the service reads and writes. A text that is missing or blank is none, or empty.
pub record Transaction : Type 0 where
  pub id : Option ℕ
  pub external_id : Option String
  pub business : Option ℕ
  pub user : Option ℕ
  pub direction : TransactionDirection
  pub name : Codes
  pub description : Codes
  pub category : Option String
  pub sub_category : Option String
  pub mono_category : Option String
  pub ai_category : Option String
  pub manual_category : Option String
  pub manual_sub_category : Option String
  pub rule_category : Option String
  pub rule_sub_category : Option String
  pub heuristic_category : Option String
  pub category_source : Option CategorySource
  pub category_id : Option ℕ
  pub sub_category_id : Option ℕ
  pub rule_id : Option ℕ
  pub is_categorised : Bool
  pub notes : Option Note

pub data MatchType : Type 0 where
  contains starts exact regex : MatchType

pub record CategorizationRule : Type 0 where
  pub id : ℕ
  pub match_type : MatchType
  pub match_value : Codes
  pub category : String
  pub sub_category : Option String

pub record AccountCategory : Type 0 where
  pub id : ℕ
  pub name : String
  pub type : String

pub record AccountSubCategory : Type 0 where
  pub id : ℕ
  pub name : String
  pub category : AccountCategory

-- An answer of an engine, with the confidence in millionths
pub record Prediction : Type 0 where
  pub category : Option String
  pub confidence : ℕ

-- A result of the second engine that has passed the checks of its shape
pub record Result : Type 0 where
  pub category_name : Option String
  pub category_type : Option String
  pub sub_category_name : Option String
  pub confidence : ℕ

-- The catalog, the active system rules by priority, and the engines: `predict` gives none where it
-- throws, `answer` gives the result for a transaction, if there is one.
pub record Setting : Type 0 where
  pub rules : List CategorizationRule
  pub categories : List AccountCategory
  pub sub_categories : List AccountSubCategory
  pub matches : Codes → Codes → Bool
  pub predict : Codes → Option Prediction
  pub answer : Transaction → Option Result
