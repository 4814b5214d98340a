-- ===== src/Integrations/Paystack.antt =====
-- src/integrations/services/integrations.service.ts: a business's own Paystack account, and the
-- import of its charges and refunds. The business of the user is an argument.
pub mod Connection
pub mod Sync
pub mod Pages
pub mod Counts
pub mod Import
mod Tests
use Prim.Native.String.{◌++◌ as ◌<>◌}
use mytrackr_backend.Prelude.{
  ℕ, zero, suc, ◌+◌, ◌-◌, ◌*◌, Bool, true, false, ◌&&◌, ◌||◌, not, Option, none, some, String, List,
  [], ◌∷◌, ◌++◌, ◌==◌, ltb, str_eq, length, or_else, or_option, ◌⊎◌, inl, inr, if◌then◌else◌,
}
use mytrackr_backend.Prelude.Codes.{Codes, codes, starts_with}
use mytrackr_backend.Calendar.{ms_per_day}
use mytrackr_backend.Reports.Treatment.{credit, debit}
use mytrackr_backend.Integrations.Entities.{PaystackConnection}
use mytrackr_backend.Integrations.Ledger.{
  RowKind, revenue, fee, of_charge, of_refund, Transaction, TransactionDto, Saved, present, added,
  refused, save_business_finance_transaction,
}

-- What paystackGet gives: rows, no rows where the data is no array, or the message that it throws
pub data Reply (A : Type 0) : Type 0 where
  rows : List A → Reply A
  failed : String → Reply A

-- Amounts are in hundredths, as the gateway counts them; a missing amount is 0.
pub record Charge : Type 0 where
  pub id : Option String
  pub reference : Option String
  pub status : String
  pub amount : ℕ
  pub fees : ℕ
  pub paid_at : Option ℕ
  pub created_at : ℕ

pub record Refund : Type 0 where
  pub id : Option String
  pub reference : Option String
  pub amount : ℕ
  pub created_at : Option ℕ
  pub processed_at : ℕ

pub record PaystackMetadata : Type 0 where
  pub business_name : Option String
  pub business_email : Option String
  pub country : Option String

-- The clock, the encryption service, the message of a broken unique constraint, and the gateway's answers for a key: its account, and the
-- pages of charges and refunds between two instants
pub record Paystack : Type 0 where
  pub now : ℕ
  pub encrypt : Codes → Codes
  pub decrypt : Codes → Codes
  pub duplicate_key : String
  pub metadata : Codes → PaystackMetadata ⊎ String
  pub charges : Codes → (from to page : ℕ) → Reply Charge
  pub refunds : Codes → (from to page : ℕ) → Reply Refund

abbrev pub per_page : ℕ
per_page = 100

-- fetchPaystackTransactions and fetchPaystackRefunds: pages until one is not full. The loop has no
-- bound of its own; `none` is the end of the fuel.
unfoldable pub fetch_from :
    {A : Type 0} → (ℕ → Reply A) → (fuel page : ℕ) → List A → Option (Reply A)
fetch_from get zero page all = none
fetch_from get (suc fuel) page all = elim (get page) [
  | failed message ↦ some (failed message)
  | rows rs ↦
      let more = fetch_from get fuel (page + 1) (all ++ rs) in
      if ltb (length rs) per_page then some (rows (all ++ rs)) else more
]

unfoldable pub fetch_all : {A : Type 0} → (ℕ → Reply A) → (fuel : ℕ) → Option (Reply A)
fetch_all get fuel = fetch_from get fuel 1 []

abbrev pub key_of : (id reference : Option String) → String
key_of id reference = or_else (or_option id reference) "undefined"

abbrev with_reference : String → Option String → String
with_reference text none = text
with_reference text (some reference) = text <> (" " <> reference)

abbrev pub charge_sale : Charge → TransactionDto
charge_sale c = record {
  external_id = of_charge (key_of c.id c.reference) revenue;
  name = "Paystack";
  amount = c.amount;
  direction = credit;
  description = with_reference "Paystack sale" c.reference;
  date = or_else c.paid_at c.created_at;
  category = "INCOME";
  sub_category = none;
}

abbrev pub charge_fee : Charge → TransactionDto
charge_fee c = record {
  external_id = of_charge (key_of c.id c.reference) fee;
  name = "Paystack Fee";
  amount = c.fees;
  direction = debit;
  description = with_reference "Paystack fee" c.reference;
  date = or_else c.paid_at c.created_at;
  category = "EXPENSE";
  sub_category = some "Payment Fees";
}

abbrev pub refund_row : Refund → TransactionDto
refund_row r = record {
  external_id = of_refund (key_of r.id r.reference);
  name = "Paystack Refund";
  amount = r.amount;
  direction = debit;
  description = with_reference "Paystack refund" r.reference;
  date = or_else r.created_at r.processed_at;
  category = "INCOME";
  sub_category = some "Refunds";
}

-- The counts of a synchronisation and the rows so far, and whether a save has thrown, which ends it
pub record Progress : Type 0 where
  pub imported : ℕ
  pub skipped : ℕ
  pub ledger : List Transaction
  pub has_thrown : Bool

abbrev pub counted : Saved × List Transaction → Progress → Progress
counted (added, ts) p = record p { imported = p.imported + 1; ledger = ts }
counted (present, ts) p = record p { skipped = p.skipped + 1; ledger = ts }
counted (refused, ts) p = record p { ledger = ts; has_thrown = true }

-- The sale is new, unless the save of the fee throws.
abbrev pub fee_saved : Saved × List Transaction → Saved × List Transaction
fee_saved (refused, ts) = (refused, ts)
fee_saved (present, ts) = (added, ts)
fee_saved (added, ts) = (added, ts)

-- The fee of a sale that is new
abbrev pub save_fee :
    (business user : ℕ) → Charge → Saved × List Transaction → Saved × List Transaction
save_fee business user c (present, ts) = (present, ts)
save_fee business user c (refused, ts) = (refused, ts)
save_fee business user c (added, ts) =
    if ltb 0 c.fees
    then fee_saved (save_business_finance_transaction business user (charge_fee c) ts)
    else (added, ts)

abbrev pub is_success : Charge → Bool
is_success c = str_eq c.status "success"

unfoldable pub import_charge : (business user : ℕ) → Charge → Progress → Progress
import_charge business user c p =
    if is_success c
    then counted
        (save_fee business user c
          (save_business_finance_transaction business user (charge_sale c) p.ledger))
        p
    else p

unfoldable pub import_charges : (business user : ℕ) → List Charge → Progress → Progress
import_charges business user [] p = p
import_charges business user (c ∷ cs) p =
    let rest = import_charges business user cs (import_charge business user c p) in
    if p.has_thrown then p else rest

unfoldable pub import_refund : (business user : ℕ) → Refund → Progress → Progress
import_refund business user r p =
    counted (save_business_finance_transaction business user (refund_row r) p.ledger) p

unfoldable pub import_refunds : (business user : ℕ) → List Refund → Progress → Progress
import_refunds business user [] p = p
import_refunds business user (r ∷ rs) p =
    let rest = import_refunds business user rs (import_refund business user r p) in
    if p.has_thrown then p else rest

unfoldable pub import_all :
    (business user : ℕ) → List Charge → List Refund → List Transaction → Progress
import_all business user cs rs ts = import_refunds business user rs (
    import_charges business user cs
      (record { imported = 0; skipped = 0; ledger = ts; has_thrown = false }))
