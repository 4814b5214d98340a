-- ===== src/Payments/Checkout/Slots.antt =====
-- The slots that a user pays for, and the accounts that the user may link.
use mytrackr_backend.Prelude.{ℕ, ◌≤◌, ◌<◌, ◌≡◌, refl, false, Option, arith, ltb}
use mytrackr_backend.Prelude.Int.{ℤ}
use mytrackr_backend.Payments.Store.{Store}
use mytrackr_backend.Payments.Exec.{thrown, bad_request}
use mytrackr_backend.Payments.Accounts.{
  get_additional_bank_account_fee_status, assert_can_link_another_bank_account,
  get_included_bank_account_limit,
}

-- A user who has linked all the accounts that the plan includes, and of whom no payment is required
-- for the next one, has a paid slot left; yet linking another account is refused.
pub paid_slot_refused :
    (setting : Option ℤ) (linked user now : ℕ) (s : Store)
    → let status = (get_additional_bank_account_fee_status setting linked user now s).0 in
      status.included_accounts ≤ linked
      → status.payment_required ≡ false
      → (0 < status.available_slots)
        × ((assert_can_link_another_bank_account linked user now s).0
            ≡ thrown (bad_request "Upgrade your plan to link another account."))
unfolding get_additional_bank_account_fee_status assert_can_link_another_bank_account
paid_slot_refused setting linked user now s full free =
    let over : ltb linked (get_included_bank_account_limit user now s).0 ≡ false = ground arith in
    (ground arith, rw over refl)
