-- ===== src/Payments/Checkout/Tests.antt =====
-- A checkout of the solo plan by a new user, and a user with a paid slot who has no plan.
use mytrackr_backend.Prelude.{◌≤◌, ◌<◌, ◌≡◌, refl, true, false, none, some, [], ◌∷◌, arith}
use mytrackr_backend.Prelude.Int.{pos}
use mytrackr_backend.Payments.Entities.{Plan, PaymentTransaction, PaymentStatus}
use mytrackr_backend.Payments.Store.{Store, save_plan, find_payment, find_latest, find_earliest}
use mytrackr_backend.Payments.Status.{
  get_user_subscription_status, activate_scheduled_if_due, activate_next, report,
}
use mytrackr_backend.Payments.Gateway.{Gateway}
use mytrackr_backend.Payments.Exec.{ok, thrown, bad_request}
use mytrackr_backend.Payments.Pricing.{calculate_subscription_checkout_pricing, base_pricing}
use mytrackr_backend.Payments.Checkout.{
  Checkout, check_plan, checkout_plan, register_and_pay, register_plan, pay_plan, pay_priced,
  start_payment,
}
use mytrackr_backend.Payments.Accounts.{
  get_additional_bank_account_fee_status, get_included_bank_account_limit, purchased_slots,
  assert_can_link_another_bank_account,
}
use mytrackr_backend.Payments.Checkout.Row.{IsStored, checkout_plan-IsStored}
use mytrackr_backend.Payments.Checkout.Slots.{paid_slot_refused}
use mytrackr_backend.Access.Entitlements.{
  get_plan_bank_account_limit, number_of, find_capability, normalize_plan_slug, find_alias,
  lowers_to, lower_code, bank_account_limit_by_plan,
}

abbrev solo : Plan
solo = record {
  id = 4;
  name = "Solo";
  slug = "solo";
  price = 500000;
  currency = "NGN";
  interval = "monthly";
  features = [];
  capabilities = [];
  is_active = true;
  gateway_plan_id = none;
}

abbrev fee_payment : PaymentTransaction
fee_payment = record {
  reference = "aba_1";
  user = some 7;
  amount = 100000;
  status = PaymentStatus.success;
  gateway_reference = none;
  payment_method = none;
  metadata = record {
    plan_id = none;
    kind = some "additional_bank_account_fee";
    slots = some (pos 1);
    integration_id = none;
    integration_plan_id = none;
    is_prorated_upgrade = false;
  };
}

abbrev new_store : Store
new_store = record {
  plans = solo ∷ [];
  users = 7 ∷ [];
  subscriptions = [];
  payments = fee_payment ∷ [];
  integrations = [];
  integration_plans = [];
  next_id = 1;
  calls = [];
}

abbrev ready : Gateway
ready = record {
  verify_payment = λ r. none;
  create_subscription = λ c p a. none;
  find_subscription = λ c p. none;
  disable_subscription = λ c t. true;
  create_plan = λ p. some "PLN_1";
  initialize_payment = λ r a. some ("https://pay", r);
  update_link = λ c. none;
}

abbrev solo_checkout : Checkout
solo_checkout = record {
  authorization_url = "https://pay";
  reference = "sub_1";
  pricing = base_pricing solo;
  currency = "NGN";
}

free_reference : find_payment "sub_1" new_store.payments ≡ none
unfolding find_payment
free_reference = refl

solo_returns : (checkout_plan ready 0 7 "sub_1" (ok tt) solo new_store).0 ≡ ok solo_checkout
unfolding checkout_plan check_plan register_and_pay register_plan pay_plan pay_priced start_payment
    calculate_subscription_checkout_pricing find_latest get_plan_bank_account_limit number_of
    find_capability normalize_plan_slug find_alias lowers_to lower_code bank_account_limit_by_plan
    save_plan
solo_returns = refl

checkout_plan-IsStored_example :
    IsStored 7 "sub_1" 4 solo_checkout (checkout_plan ready 0 7 "sub_1" (ok tt) solo new_store).1
checkout_plan-IsStored_example =
    checkout_plan-IsStored ready 0 7 "sub_1" (ok tt) solo new_store solo_checkout free_reference
      solo_returns

nothing_included :
    (get_additional_bank_account_fee_status none 0 7 5 new_store).0.included_accounts ≤ 0
unfolding get_additional_bank_account_fee_status get_included_bank_account_limit
    get_user_subscription_status activate_scheduled_if_due activate_next report find_latest
    find_earliest get_plan_bank_account_limit normalize_plan_slug bank_account_limit_by_plan
nothing_included = omega arith

nothing_required :
    (get_additional_bank_account_fee_status none 0 7 5 new_store).0.payment_required ≡ false
unfolding get_additional_bank_account_fee_status get_included_bank_account_limit
    get_user_subscription_status activate_scheduled_if_due activate_next report find_latest
    find_earliest get_plan_bank_account_limit normalize_plan_slug bank_account_limit_by_plan
    purchased_slots
nothing_required = refl

paid_slot_refused_example :
    (0 < (get_additional_bank_account_fee_status none 0 7 5 new_store).0.available_slots)
    × ((assert_can_link_another_bank_account 0 7 5 new_store).0
        ≡ thrown (bad_request "Upgrade your plan to link another account."))
paid_slot_refused_example = paid_slot_refused none 0 7 5 new_store nothing_included nothing_required
