-- ===== src/Access/Entitlements.antt =====
-- src/common/access-control/plan-entitlements.ts: what a plan allows. The tables are objects whose
-- keys are lower-case ASCII letters, digits and signs; the names that every object has, such as
-- `constructor`, are not taken for plans here.
pub mod Ranks
use Prim.Native.Char.{Char, code}
use mytrackr_backend.Prelude.{
  ℕ, ◌+◌, Bool, true, false, ◌&&◌, ◌||◌, Option, none, some, String, List, [], ◌∷◌, ◌==◌, leb,
  str_eq, any, or_else, or_option, if◌then◌else◌,
}
use mytrackr_backend.Prelude.Int.{ℤ, pos, negsuc}
use mytrackr_backend.Payments.Entities.{Plan, Value}

pub data PlanSlug : Type 0 where
  basic starter web solo duo unlimited : PlanSlug

-- toLowerCase on one character, as far as ASCII
unfoldable pub lower_code : ℕ → ℕ
lower_code c = if leb 65 c && leb c 90 then c + 32 else c

-- raw.toLowerCase() === key, for a key of lower-case ASCII. No other character becomes a
-- letter of a key.
unfoldable pub lowers_to : (raw key : String) → Bool
lowers_to String.[] String.[] = true
lowers_to String.[] (String.◌∷◌ d key) = false
lowers_to (String.◌∷◌ c raw) String.[] = false
lowers_to (String.◌∷◌ c raw) (String.◌∷◌ d key) =
    let rest = lowers_to raw key in lower_code (code c) == code d && rest

-- PLAN_ALIASES
abbrev pub plan_aliases : List (String × PlanSlug)
plan_aliases =
    ("basic", basic)
    ∷ ("free", basic)
    ∷ ("starter", starter)
    ∷ ("web", web)
    ∷ ("solo", solo)
    ∷ ("duo", duo)
    ∷ ("unlimited", unlimited)
    ∷ ("pro", solo)
    ∷ ("pro-yearly", solo)
    ∷ ("premium", solo)
    ∷ ("premium-yearly", solo)
    ∷ ("pro+", duo)
    ∷ ("pro-plus", duo)
    ∷ ("pro-plus-yearly", duo)
    ∷ ("proplus", duo)
    ∷ []

unfoldable pub find_alias : String → List (String × PlanSlug) → Option PlanSlug
find_alias raw [] = none
find_alias raw ((key, slug) ∷ rest) =
    let later = find_alias raw rest in if lowers_to raw key then some slug else later

-- normalizeRequiredPlan
unfoldable pub normalize_required_plan : String → Option PlanSlug
normalize_required_plan name = find_alias name plan_aliases

-- PLAN_RANK
unfoldable pub plan_rank : PlanSlug → ℕ
plan_rank basic = 1
plan_rank starter = 2
plan_rank web = 2
plan_rank solo = 2
plan_rank duo = 3
plan_rank unlimited = 4

-- Number.MAX_SAFE_INTEGER
abbrev pub max_safe_integer : ℕ
max_safe_integer = 9007199254740991

-- BANK_ACCOUNT_LIMIT_BY_PLAN
unfoldable pub bank_account_limit_by_plan : PlanSlug → ℕ
bank_account_limit_by_plan basic = 0
bank_account_limit_by_plan starter = 0
bank_account_limit_by_plan web = 0
bank_account_limit_by_plan solo = 1
bank_account_limit_by_plan duo = 2
bank_account_limit_by_plan unlimited = max_safe_integer

unfoldable pub find_capability : String → List (String × Value) → Option Value
find_capability key [] = none
find_capability key ((k, v) ∷ rest) = if str_eq k key then some v else find_capability key rest

abbrev pub is_true : Value → Bool
is_true (Value.boolean b) = b
is_true _ = false

-- planHasCapability: an own capability decides, else the list of features
unfoldable pub plan_has_capability : Option Plan → String → Bool
plan_has_capability none capability = false
plan_has_capability (some p) capability = elim (find_capability capability p.capabilities) [
  | some v ↦ is_true v
  | none ↦ any (λ f. str_eq f capability) p.features
]

-- normalizePlanSlug: by the slug, or else by the name
unfoldable pub normalize_plan_slug : Option Plan → Option PlanSlug
normalize_plan_slug none = none
normalize_plan_slug (some p) =
    or_option (find_alias p.slug plan_aliases) (find_alias p.name plan_aliases)

abbrev pub outranks : Option PlanSlug → Option PlanSlug → Bool
outranks none required = false
outranks (some a) none = false
outranks (some a) (some r) = leb (plan_rank r) (plan_rank a)

-- planHasAccess
unfoldable pub plan_has_access : Option Plan → String → Bool
plan_has_access active required =
    outranks (normalize_plan_slug active) (normalize_required_plan required)

-- Number(value), `none` for NaN
unfoldable pub number_of : Option Value → Option ℤ
number_of none = none
number_of (some Value.null) = some (pos 0)
number_of (some (Value.boolean b)) = some (if b then pos 1 else pos 0)
number_of (some (Value.number n)) = some n
number_of (some (Value.other n)) = n

abbrev pub configured_limit : Option Plan → Option ℤ
configured_limit none = none
configured_limit (some p) = number_of (find_capability "bankAccountLimit" p.capabilities)

abbrev limit_of : Option ℤ → ℕ → ℕ
limit_of none default = default
limit_of (some (pos n)) default = n
limit_of (some (negsuc n)) default = if n == 0 then max_safe_integer else default

-- getPlanBankAccountLimit
unfoldable pub get_plan_bank_account_limit : Option Plan → ℕ
get_plan_bank_account_limit active =
    limit_of (configured_limit active)
      (bank_account_limit_by_plan (or_else (normalize_plan_slug active) basic))
