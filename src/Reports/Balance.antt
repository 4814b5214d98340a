-- ===== src/Reports/Balance.antt =====
-- src/reports/services/balance-sheet.service.ts: the balance sheet. Equity is what is left of the
-- assets after the liabilities; what the books explain of it is kept beside it.
pub mod Equity
use mytrackr_backend.Prelude.{
  ℕ, ◌+◌, Bool, true, false, ◌&&◌, ◌||◌, not, Option, none, some, String, List, [], ◌∷◌, ◌==◌,
  str_eq, ltb, keep, any, is_some, or_else, if◌then◌else◌,
}
use mytrackr_backend.Prelude.Int.{ℤ, pos, pos_part, neg_part, ◌+ℤ◌, ◌-ℤ◌, sum_ℤ}
use mytrackr_backend.Reports.Treatment.{Transaction, has_category, is_credit}
use mytrackr_backend.Reports.Profit.{get_categorised_summary, net_profit}

pub data AssetCategory : Type 0 where
  cash_bank cash_hand inventory receivables land_buildings equipment furniture other : AssetCategory

abbrev pub is_inventory : AssetCategory → Bool
is_inventory inventory = true
is_inventory _ = false

pub record Asset : Type 0 where
  pub id : ℕ
  pub business : ℕ
  pub name : String
  pub category : AssetCategory
  pub purchase_value : ℤ
  pub current_value : Option ℤ
  pub is_archived : Bool
  pub updated_at : ℕ

pub data LiabilityStatus : Type 0 where
  active settled archived : LiabilityStatus

abbrev pub is_active : LiabilityStatus → Bool
is_active active = true
is_active _ = false

pub record Liability : Type 0 where
  pub id : ℕ
  pub business : ℕ
  pub name : String
  pub amount_owed : ℤ
  pub status : LiabilityStatus

pub record BankAccount : Type 0 where
  pub id : ℕ
  pub business : Option ℕ
  pub bank_name : String
  pub current_balance : ℤ

-- getAssetDisplayValue
abbrev pub get_asset_display_value : Asset → ℤ
get_asset_display_value a = or_else a.current_value a.purchase_value

abbrev later_asset : Asset → Option Asset → Option Asset
later_asset a none = some a
later_asset a (some latest) = if ltb latest.updated_at a.updated_at then some a else some latest

-- The reduce of getLatestInventoryUpdate, from the latest found so far
unfoldable pub latest_from : Option Asset → List Asset → Option Asset
latest_from latest [] = latest
latest_from latest (a ∷ rest) = latest_from (later_asset a latest) rest

-- getLatestInventoryUpdate
abbrev pub get_latest_inventory_update : List Asset → Option Asset
get_latest_inventory_update = latest_from none

-- The rows of the tables that the statement reads
pub record Tables : Type 0 where
  pub bank_accounts : List BankAccount
  pub assets : List Asset
  pub liabilities : List Liability
  pub transactions : List Transaction

abbrev of_business : ℕ → Option ℕ → Bool
of_business k b = elim b [ none ↦ false | some j ↦ j == k ]

abbrev has_sub_category : List String → Transaction → Bool
has_sub_category names tx = elim tx.sub_category [
  | none ↦ false
  | some s ↦ any (λ n. str_eq s n) names
]

abbrev equity_row : ℕ → Transaction → Bool
equity_row k tx =
    not (is_some tx.deleted_at) && (of_business k tx.business && has_category "EQUITY" tx)

abbrev pub is_capital : ℕ → Transaction → Bool
is_capital k tx =
    equity_row k tx && (is_credit tx && has_sub_category ("Capital contributed" ∷ []) tx)

abbrev pub is_drawing : ℕ → Transaction → Bool
is_drawing k tx =
    equity_row k tx
    && (not (is_credit tx)
        && has_sub_category
            ("Personal Use" ∷ "Personal use" ∷ "Owner Withdrawal (for personal use)" ∷ []) tx)

abbrev amount_of : Transaction → ℤ
amount_of tx = tx.amount

pub record BalanceSheet : Type 0 where
  pub bank_accounts : List BankAccount
  pub cash_and_bank_balances : ℤ
  pub business_assets : List Asset
  pub business_assets_total : ℤ
  pub total_assets : ℤ
  pub inventory_reminder : Option Asset
  pub active_liabilities : List Liability
  pub total_liabilities : ℤ
  pub owner_investments : ℤ
  pub retained_profit : ℤ
  pub owner_withdrawals : ℤ
  pub recorded_equity : ℤ
  pub equity_reconciliation : ℤ
  pub owners_equity : ℤ
  pub recorded_difference : ℕ

-- 2000-01-01T00:00:00.000Z
abbrev pub business_start_date : ℕ
business_start_date = 946684800000

-- calculateBalanceSheet
unfoldable pub calculate_balance_sheet : (business today : ℕ) → Tables → BalanceSheet
calculate_balance_sheet k today t =
    let accounts = keep (λ (a : BankAccount). of_business k a.business) t.bank_accounts in
    let cash = sum_ℤ (λ (a : BankAccount). a.current_balance) accounts in
    let assets = keep (λ (a : Asset). a.business == k && not a.is_archived) t.assets in
    let belongings = sum_ℤ get_asset_display_value assets in
    let liabilities =
      keep (λ (l : Liability). l.business == k && is_active l.status) t.liabilities in
    let owed = sum_ℤ (λ (l : Liability). l.amount_owed) liabilities in
    let capital = sum_ℤ amount_of (keep (is_capital k) t.transactions) in
    let drawings = sum_ℤ amount_of (keep (is_drawing k) t.transactions) in
    let retained =
      net_profit (get_categorised_summary k business_start_date today t.transactions) in
    let recorded = capital +ℤ retained -ℤ drawings in
    let equity = cash +ℤ belongings -ℤ owed in
    record {
      bank_accounts = accounts;
      cash_and_bank_balances = cash;
      business_assets = assets;
      business_assets_total = belongings;
      total_assets = cash +ℤ belongings;
      inventory_reminder =
          get_latest_inventory_update (keep (λ (a : Asset). is_inventory a.category) assets);
      active_liabilities = liabilities;
      total_liabilities = owed;
      owner_investments = capital;
      retained_profit = retained;
      owner_withdrawals = drawings;
      recorded_equity = recorded;
      equity_reconciliation = equity -ℤ recorded;
      owners_equity = equity;
      recorded_difference = pos_part (equity -ℤ recorded) + neg_part (equity -ℤ recorded);
    }
