-- ===== src/Payments/Accounts.antt =====
-- The slots for further bank accounts: their fee, their checkout and the check before another is
-- linked, of subscription.service.ts.
use mytrackr_backend.Prelude.{
  ℕ, ◌+◌, ◌-◌, Bool, false, ◌&&◌, Option, none, some, String, List, [], ◌∷◌, str_eq, ltb, leb,
  or_else, is_some, if◌then◌else◌,
}
use mytrackr_backend.Prelude.Int.{ℤ, pos, negsuc}
use mytrackr_backend.Payments.Entities.{PaymentStatus, PaymentTransaction}
use mytrackr_backend.Payments.Store.{Store, insert_payment}
use mytrackr_backend.Payments.Status.{get_user_subscription_status}
use mytrackr_backend.Payments.Gateway.{Gateway}
use mytrackr_backend.Payments.Exec.{Exec, ◌>>=◌, ◌>>◌, throw, modify, run, require, bad_request}
use mytrackr_backend.Payments.Provision.{answer}
use mytrackr_backend.Payments.Requests.{is_success, owned_by}
use mytrackr_backend.Access.Entitlements.{get_plan_bank_account_limit}
use mytrackr_backend.Payments.Checkout.{initialize_payment}

-- getAdditionalBankAccountFee; the argument is what `Number` makes of the stored setting
abbrev pub additional_bank_account_fee : Option ℤ → ℤ
additional_bank_account_fee setting = or_else setting (pos 0)

abbrev pub is_fee : PaymentTransaction → Bool
is_fee tx = elim tx.metadata.kind [ none ↦ false | some k ↦ str_eq k "additional_bank_account_fee" ]

-- The slots of one payment of the fee
abbrev pub slots_of : PaymentTransaction → ℕ
slots_of tx = elim tx.metadata.slots [
  | none ↦ 1
  | some (pos n) ↦ if ltb 0 n then n else 1
  | some (negsuc n) ↦ 1
]

-- getPurchasedAdditionalBankAccountSlots
unfoldable pub purchased_slots : (user : ℕ) → List PaymentTransaction → ℕ
purchased_slots user [] = 0
purchased_slots user (tx ∷ txs) =
    let rest = purchased_slots user txs in
    if owned_by user tx && (is_success tx.status && is_fee tx) then slots_of tx + rest else rest

pub record FeeStatus : Type 0 where
  pub price : ℤ
  pub included_accounts : ℕ
  pub linked_accounts : ℕ
  pub paid_slots : ℕ
  pub available_slots : ℕ
  pub payment_required : Bool

-- getIncludedBankAccountLimit
unfoldable pub get_included_bank_account_limit : (user now : ℕ) → Store → ℕ × Store
get_included_bank_account_limit user now s =
    let (st, s') = get_user_subscription_status user now s in
    (get_plan_bank_account_limit st.active_plan, s')

-- getAdditionalBankAccountFeeStatus; `linked` is the count of the user's connected accounts
unfoldable pub get_additional_bank_account_fee_status :
    (setting : Option ℤ) → (linked user now : ℕ) → Store → FeeStatus × Store
get_additional_bank_account_fee_status setting linked user now s =
    let (included, s') = get_included_bank_account_limit user now s in
    let paid = purchased_slots user s'.payments in
    (
      record {
        price = additional_bank_account_fee setting;
        included_accounts = included;
        linked_accounts = linked;
        paid_slots = paid;
        available_slots = paid - (linked - included);
        payment_required = leb (included + paid) linked;
      },
      s',
    )

-- The row of a payment of the fee
abbrev pub fee_row : (user : ℕ) → String → ℕ → PaymentTransaction
fee_row user reference price = record {
  reference = reference;
  user = some user;
  amount = price;
  status = PaymentStatus.pending;
  gateway_reference = none;
  payment_method = none;
  metadata = record {
    plan_id = none;
    kind = some "additional_bank_account_fee";
    slots = some (pos 1);
    integration_id = none;
    integration_plan_id = none;
    is_prorated_upgrade = false;
  };
}

unfoldable pub charge_fee : Gateway → (user : ℕ) → String → ℤ → Exec (String × String)
charge_fee g user reference (negsuc n) =
    throw
      (bad_request "Additional bank account pricing has not been configured by an administrator")
charge_fee g user reference (pos price) = do
  require (ltb 0 price)
      (bad_request "Additional bank account pricing has not been configured by an administrator")
  modify (insert_payment (fee_row user reference price))
  answer (initialize_payment g reference price)

-- initializeAdditionalBankAccountCheckout
unfoldable pub initialize_additional_bank_account_checkout :
    Gateway
    → (setting : Option ℤ) → (linked now user : ℕ) → (email : Option String) → (reference : String)
    → Exec (String × String)
initialize_additional_bank_account_checkout g setting linked now user email reference = do
  require (is_some email) (
      bad_request
        "An email address is required to initialize payment for an additional bank account")
  status ← run (get_additional_bank_account_fee_status setting linked user now)
  require status.payment_required
      (bad_request "You already have an available paid slot for your next bank account")
  charge_fee g user reference status.price

-- assertCanLinkAnotherBankAccount; the text of the message is left out
unfoldable pub assert_can_link_another_bank_account : (linked user now : ℕ) → Exec (Unit {0})
assert_can_link_another_bank_account linked user now = do
  included ← run (get_included_bank_account_limit user now)
  require (ltb linked included) (bad_request "Upgrade your plan to link another account.")
