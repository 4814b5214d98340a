-- ===== src/Payments/Tests/Data.antt =====
-- The plans, rows, stores and the gateway of the runs.
use mytrackr_backend.Prelude.{ℕ, ◌*◌, Bool, true, false, none, some, String, List, [], ◌∷◌, arith}
use mytrackr_backend.Calendar.{ms_per_day}
use mytrackr_backend.Payments.Entities.{
  Plan, Subscription, SubscriptionStatus, PaymentTransaction, PaymentStatus,
}
use mytrackr_backend.Payments.Store.{Store}
use mytrackr_backend.Payments.Store.Sound.{IsSound}
use mytrackr_backend.Payments.Gateway.{Gateway, PaymentSubscription, Verification}
use mytrackr_backend.Payments.Provision.{Purchase}
use mytrackr_backend.Payments.Requests.{WebhookEvent}

-- The first instant of day n, counted from 1970; day 20782 is 25 November 2026.
abbrev pub at_day : ℕ → ℕ
at_day n = n * ms_per_day

abbrev pub today : ℕ
today = 1795564800000

abbrev pub month_plan : ℕ → String → ℕ → Plan
month_plan id slug price = record {
  id = id;
  name = slug;
  slug = slug;
  price = price;
  currency = "NGN";
  interval = "monthly";
  features = [];
  capabilities = [];
  is_active = true;
  gateway_plan_id = some "PLN";
}

abbrev pub basic : Plan
basic = month_plan 1 "basic" 300000

abbrev pub pro : Plan
pro = month_plan 2 "pro" 900000

-- A row of user 7 on the basic plan
abbrev pub row_of : ℕ → SubscriptionStatus → ℕ → ℕ → Subscription
row_of id st start end_at = record {
  id = id;
  user = 7;
  plan = some 1;
  status = st;
  gateway_subscription_id = some "SUB";
  gateway_customer_code = some "CUS";
  gateway_email_token = some "token";
  payment_authorization = none;
  current_period_start = some start;
  current_period_end = some end_at;
  cancel_at_period_end = false;
  canceled_at = none;
  created_at = start;
}

-- Half of the period is over.
abbrev pub running_row : Subscription
running_row = row_of 1 SubscriptionStatus.active 1794268800000 1796860800000

-- The period ended yesterday, and the next one is queued.
abbrev pub ended_row : Subscription
ended_row = row_of 1 SubscriptionStatus.active 1792886400000 1795478400000

abbrev pub queued_row : Subscription
queued_row = row_of 2 SubscriptionStatus.scheduled 1795478400000 1798070400000

abbrev pub payment_of : String → PaymentTransaction
payment_of reference = record {
  reference = reference;
  user = some 7;
  amount = 900000;
  status = PaymentStatus.pending;
  gateway_reference = none;
  payment_method = none;
  metadata = record {
    plan_id = some 2;
    kind = none;
    slots = none;
    integration_id = none;
    integration_plan_id = none;
    is_prorated_upgrade = false;
  };
}

abbrev pub store_of : List Subscription → Store
store_of rows = record {
  plans = basic ∷ pro ∷ [];
  users = 7 ∷ [];
  subscriptions = rows;
  payments = payment_of "ref" ∷ [];
  integrations = [];
  integration_plans = [];
  next_id = 3;
  calls = [];
}

abbrev pub running_store : Store
running_store = store_of (running_row ∷ [])

abbrev pub ended_store : Store
ended_store = store_of (ended_row ∷ queued_row ∷ [])

pub running_store-IsSound : IsSound running_store
running_store-IsSound = record {
  unique = (tt, tt);
  below = (omega arith, tt);
  one_active = λ u. ground arith;
  one_scheduled = λ u. ground arith;
}

pub ended_store-IsSound : IsSound ended_store
ended_store-IsSound = record {
  unique = ((ground arith, tt), (tt, tt));
  below = (omega arith, (omega arith, tt));
  one_active = λ u. ground arith;
  one_scheduled = λ u. ground arith;
}

abbrev pub paid : Verification
paid = record {
  status = PaymentStatus.success;
  reference = "ref";
  gateway_reference = some "gateway ref";
  customer_code = some "CUS";
  authorization = none;
  channel = some "card";
  subscription = PaymentSubscription.absent;
}

-- A gateway that calls every payment a success and refuses to disable a subscription
abbrev pub stubborn : Gateway
stubborn = record {
  verify_payment = λ r. some paid;
  create_subscription = λ c p a. none;
  find_subscription = λ c p. none;
  disable_subscription = λ c t. false;
  create_plan = λ p. none;
  initialize_payment = λ r a. none;
  update_link = λ c. none;
}

-- The purchase of the pro plan by user 7
abbrev pub purchase : Bool → Purchase
purchase up = record {
  user = 7;
  plan = pro;
  customer_code = some "CUS";
  authorization = none;
  payment = PaymentSubscription.absent;
  is_prorated_upgrade = up;
}

abbrev pub charge : WebhookEvent
charge = record { event = "charge.success"; reference = "ref" }

-- The payment of `ref` once more, when it is a success already and the user has no subscription
abbrev pub replayed : PaymentTransaction
replayed = record (payment_of "ref") { status = PaymentStatus.success }

abbrev pub bare_store : Store
bare_store = store_of []

pub bare_store-IsSound : IsSound bare_store
bare_store-IsSound = record {
  unique = tt;
  below = tt;
  one_active = λ u. omega arith;
  one_scheduled = λ u. omega arith;
}
