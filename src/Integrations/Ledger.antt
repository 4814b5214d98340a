-- ===== src/Integrations/Ledger.antt =====
-- src/integrations/services/integrations.service.ts: the finance transactions that sales leave. The
-- external id of a row is a text of a prefix, the ids of its source and a kind. It is modelled by
-- these parts, which it determines, since the id of an integration has no colon.
use mytrackr_backend.Prelude.{
  ◌*◌, ◌/◌, not, All, Bool-cases, inl, inr, ℕ, Bool, true, false, ◌&&◌, ◌||◌, Option, String, List,
  [], ◌∷◌, ◌++◌, ◌≡◌, ◌==◌, str_eq, str_eq_iff, refl, arith, if◌then◌else◌,
}
use mytrackr_backend.Calendar.{ms_per_day}
use mytrackr_backend.Reports.Treatment.{TransactionDirection}

pub data RowKind : Type 0 where
  revenue fee refund : RowKind

abbrev pub same_kind : RowKind → RowKind → Bool
same_kind revenue revenue = true
same_kind fee fee = true
same_kind refund refund = true
same_kind _ _ = false

-- `integration:…`, `paystack:charge:…`, `paystack:refund:…`, and the ids of all other rows
pub data ExternalId : Type 0 where
  of_event : (integration : ℕ) → (external : String) → RowKind → ExternalId
  of_charge : (charge : String) → RowKind → ExternalId
  of_refund : (refunded : String) → ExternalId
  other : String → ExternalId

unfoldable pub same_id : ExternalId → ExternalId → Bool
same_id (of_event i x k) (of_event j y l) = i == j && (str_eq x y && same_kind k l)
same_id (of_charge x k) (of_charge y l) = str_eq x y && same_kind k l
same_id (of_refund x) (of_refund y) = str_eq x y
same_id (other x) (other y) = str_eq x y
same_id _ _ = false

-- The instant at which the day of an instant begins
abbrev pub day_of : ℕ → ℕ
day_of t = t / ms_per_day * ms_per_day

-- The column of dates keeps the day. A row that is deleted stays, with the instant of the deletion;
-- its external id is still taken.
pub record Transaction : Type 0 where
  pub external_id : ExternalId
  pub name : String
  pub amount : ℕ
  pub direction : TransactionDirection
  pub description : String
  pub date : ℕ
  pub business : ℕ
  pub user : ℕ
  pub category : String
  pub sub_category : Option String
  pub manual_category : String
  pub manual_sub_category : Option String
  pub is_categorised : Bool
  pub is_deleted : Bool

-- The dto of the two save functions
pub record TransactionDto : Type 0 where
  pub external_id : ExternalId
  pub name : String
  pub amount : ℕ
  pub direction : TransactionDirection
  pub description : String
  pub date : ℕ
  pub category : String
  pub sub_category : Option String

unfoldable pub has_row : ExternalId → List Transaction → Bool
has_row x [] = false
has_row x (t ∷ ts) = let later = has_row x ts in same_id t.external_id x || later

-- A row that findOne sees
unfoldable pub has_live : ExternalId → List Transaction → Bool
has_live x [] = false
has_live x (t ∷ ts) =
    let later = has_live x ts in (same_id t.external_id x && not t.is_deleted) || later

abbrev pub create_row : (business user : ℕ) → TransactionDto → Transaction
create_row business user dto = record {
  external_id = dto.external_id;
  name = dto.name;
  amount = dto.amount;
  direction = dto.direction;
  description = dto.description;
  date = day_of dto.date;
  business = business;
  user = user;
  category = dto.category;
  sub_category = dto.sub_category;
  manual_category = dto.category;
  manual_sub_category = dto.sub_category;
  is_categorised = true;
  is_deleted = false;
}

-- Whether a row was there, is added, or breaks the unique external id, which throws
pub data Saved : Type 0 where
  present added refused : Saved

abbrev pub is_refused : Saved → Bool
is_refused refused = true
is_refused _ = false

-- saveBusinessFinanceTransaction: what it comes to, and the rows then
unfoldable pub save_business_finance_transaction :
    (business user : ℕ) → TransactionDto → List Transaction → Saved × List Transaction
save_business_finance_transaction business user dto rows =
    if has_live dto.external_id rows
    then (present, rows)
    else if has_row dto.external_id rows
    then (refused, rows)
    else (added, rows ++ create_row business user dto ∷ [])

pub same_id_refl : (x : ExternalId) → same_id x x ≡ true
unfolding same_id
same_id_refl (of_event i x revenue) = ground (arith, str_eq_iff x x)
same_id_refl (of_event i x fee) = ground (arith, str_eq_iff x x)
same_id_refl (of_event i x refund) = ground (arith, str_eq_iff x x)
same_id_refl (of_charge x revenue) = ground (arith, str_eq_iff x x)
same_id_refl (of_charge x fee) = ground (arith, str_eq_iff x x)
same_id_refl (of_charge x refund) = ground (arith, str_eq_iff x x)
same_id_refl (of_refund x) = ground (arith, str_eq_iff x x)
same_id_refl (other x) = ground (arith, str_eq_iff x x)

pub has_row-append :
    (x : ExternalId) (rows : List Transaction) (t : Transaction)
    → has_row x (rows ++ t ∷ []) ≡ (same_id t.external_id x || has_row x rows)
unfolding has_row
has_row-append x [] t = ground arith
has_row-append x (r ∷ rows) t = ground (arith, has_row-append x rows t)

-- What is seen is there.
has_live-has_row :
    (x : ExternalId) (rows : List Transaction) → has_row x rows ≡ false → has_live x rows ≡ false
unfolding has_live has_row
has_live-has_row x [] h = refl
has_live-has_row x (r ∷ rows) h = let ih = has_live-has_row x rows in ground arith

abbrev pub IsLive : Transaction → Type 0
IsLive t = t.is_deleted ≡ false

-- Where no row is deleted, all are seen.
pub has_row-has_live :
    (x : ExternalId) (rows : List Transaction)
    → All IsLive rows
    → has_row x rows ≡ true
    → has_live x rows ≡ true
unfolding has_live has_row
has_row-has_live x [] live h = cc
has_row-has_live x (r ∷ rows) (first, live) h =
    let ih = has_row-has_live x rows live in ground arith

-- A new id is added.
pub save_new :
    (business user : ℕ) (dto : TransactionDto) (rows : List Transaction)
    → has_row dto.external_id rows ≡ false
    → save_business_finance_transaction business user dto rows
      ≡ (added, rows ++ create_row business user dto ∷ [])
unfolding save_business_finance_transaction
save_new business user dto rows h =
    rw (has_live-has_row dto.external_id rows h, h, save_business_finance_transaction) refl

-- A row that is seen is left.
pub save_present :
    (business user : ℕ) (dto : TransactionDto) (rows : List Transaction)
    → has_live dto.external_id rows ≡ true
    → save_business_finance_transaction business user dto rows ≡ (present, rows)
unfolding save_business_finance_transaction
save_present business user dto rows h = rw (h, save_business_finance_transaction) refl

save_deleted :
    (business user : ℕ) (dto : TransactionDto) (rows : List Transaction)
    → has_live dto.external_id rows ≡ false
    → has_row dto.external_id rows ≡ true
    → save_business_finance_transaction business user dto rows ≡ (refused, rows)
unfolding save_business_finance_transaction
save_deleted business user dto rows h there = rw (h, there, save_business_finance_transaction) refl

-- The rows after a save
pub save_rows :
    (business user : ℕ) (dto : TransactionDto) (rows : List Transaction)
    → (save_business_finance_transaction business user dto rows).1
      ≡ (if has_row dto.external_id rows then rows else rows ++ create_row business user dto ∷ [])
save_rows business user dto rows = elim (Bool-cases (has_row dto.external_id rows)) [
  | inr new ↦ rw (save_new business user dto rows new, new) refl
  | inl there ↦ elim (Bool-cases (has_live dto.external_id rows)) [
    | inl seen ↦ rw (save_present business user dto rows seen, there) refl
    | inr hidden ↦ rw (save_deleted business user dto rows hidden there, there) refl
  ]
]
