-- ===== src/Payments/Gateway.antt =====
-- The payment gateway, of which this development has no definition: its answers during one request
-- are a parameter. src/payments/services/subscription.service.ts logs and swallows some failures of
-- its calls and lets others pass; `none` is a call that throws.
use mytrackr_backend.Prelude.{ℕ, Bool, Option, none, some, String, List, [], ◌∷◌, or_option}
use mytrackr_backend.Payments.Entities.{Authorization, PaymentStatus, Plan}
use mytrackr_backend.Payments.Store.{Call}

-- A subscription code with its e-mail token; `none` is the empty text.
pub record Codes : Type 0 where
  pub subscription_code : Option String
  pub email_token : Option String

abbrev pub no_codes : Codes
no_codes = record { subscription_code = none; email_token = none }

-- The `subscription` field of a payment: absent, a text, or an object with its four spellings.
pub data PaymentSubscription : Type 0 where
  absent : PaymentSubscription
  code_only : String → PaymentSubscription
  fields : (snake_code camel_code snake_token camel_token : Option String) → PaymentSubscription

pub record Verification : Type 0 where
  pub status : PaymentStatus
  pub reference : String
  pub gateway_reference : Option String
  pub customer_code : Option String
  pub authorization : Option Authorization
  pub channel : Option String
  pub subscription : PaymentSubscription

pub record Gateway : Type 0 where
  pub verify_payment : String → Option Verification
  pub create_subscription : String → String → String → Option Codes
  pub find_subscription : String → String → Option (Option Codes)
  pub disable_subscription : String → String → Bool
  pub create_plan : Plan → Option String
  pub initialize_payment : String → ℕ → Option (String × String)
  pub update_link : Option String → Option String

-- extractPaystackSubscriptionDetails
unfoldable pub extract_paystack_subscription_details : PaymentSubscription → Codes
extract_paystack_subscription_details absent = no_codes
extract_paystack_subscription_details (code_only c) = record {
  subscription_code = some c;
  email_token = none;
}
extract_paystack_subscription_details (fields a b c d) = record {
  subscription_code = or_option a b;
  email_token = or_option c d;
}

abbrev found_codes : Option (Option Codes) → Codes
found_codes none = no_codes
found_codes (some none) = no_codes
found_codes (some (some c)) = c

-- createOrFindPaystackSubscription, with the calls that it makes. A failure of either is swallowed.
unfoldable pub create_or_find_paystack_subscription :
    Gateway → (customer plan authorization : String) → Codes × List Call
create_or_find_paystack_subscription g c p a = elim (g.create_subscription c p a) [
  | some created ↦ (created, Call.create_subscription c p a ∷ [])
  | none ↦ (
    found_codes (g.find_subscription c p),
    Call.create_subscription c p a ∷ Call.find_subscription c p ∷ [],
  )
]
