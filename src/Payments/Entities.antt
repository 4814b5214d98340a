-- ===== src/Payments/Entities.antt =====
-- src/payments/entities/*.ts. Row ids are numbers, instants are milliseconds, money is in hundredths
-- of the currency unit (the columns are decimals of scale 2). A text column that the code tests only
-- for truthiness is an `Option`: `none` stands for null, undefined and the empty text.
use mytrackr_backend.Prelude.{ℕ, Bool, true, false, Option, String, List}
use mytrackr_backend.Prelude.Codes.{Codes}
use mytrackr_backend.Prelude.Int.{ℤ}

-- A value of the `capabilities` column. `other` is a text, an array or an object, of which the
-- program reads only what `Number` makes of it (`none` for NaN).
pub data Value : Type 0 where
  null : Value
  boolean : Bool → Value
  number : ℤ → Value
  other : Option ℤ → Value

pub record Plan : Type 0 where
  pub id : ℕ
  pub name : String
  pub slug : String
  pub price : ℕ
  pub currency : String
  pub interval : String
  pub features : List String
  pub capabilities : List (String × Value)
  pub is_active : Bool
  pub gateway_plan_id : Option String

pub data SubscriptionStatus : Type 0 where
  pending active scheduled past_due canceled : SubscriptionStatus

abbrev pub is_active : SubscriptionStatus → Bool
is_active active = true
is_active _ = false

abbrev pub is_scheduled : SubscriptionStatus → Bool
is_scheduled scheduled = true
is_scheduled _ = false

-- The authorization object of the gateway.
pub record Authorization : Type 0 where
  pub authorization_code : Option String
  pub brand : Option String
  pub last4 : Option String
  pub reusable : Bool

pub record Subscription : Type 0 where
  pub id : ℕ
  pub user : ℕ
  pub plan : Option ℕ
  pub status : SubscriptionStatus
  pub gateway_subscription_id : Option String
  pub gateway_customer_code : Option String
  pub gateway_email_token : Option String
  pub payment_authorization : Option Authorization
  pub current_period_start : Option ℕ
  pub current_period_end : Option ℕ
  pub cancel_at_period_end : Bool
  pub canceled_at : Option ℕ
  pub created_at : ℕ

pub data PaymentStatus : Type 0 where
  pending success failed : PaymentStatus

-- The keys of the `metadata` column that the program reads again. `slots` is the number that
-- `Number(metadata.slots ?? 1)` gives, `none` where that is NaN.
pub record Metadata : Type 0 where
  pub plan_id : Option ℕ
  pub kind : Option String
  pub slots : Option ℤ
  pub integration_id : Option ℕ
  pub integration_plan_id : Option ℕ
  pub is_prorated_upgrade : Bool

-- `currency` is only stored and shown, and `gateway` is always paystack.
pub record PaymentTransaction : Type 0 where
  pub reference : String
  pub user : Option ℕ
  pub amount : ℕ
  pub status : PaymentStatus
  pub gateway_reference : Option String
  pub payment_method : Option String
  pub metadata : Metadata

pub data IntegrationBillingStatus : Type 0 where
  pending active past_due canceled : IntegrationBillingStatus

-- src/integrations/entities/integration-plan.entity.ts, as far as a payment reads it
pub record IntegrationPlan : Type 0 where
  pub id : ℕ
  pub interval : String

-- src/integrations/entities/integration.entity.ts. Texts that the code looks into are code points.
pub data IntegrationPlatform : Type 0 where
  react wordpress custom : IntegrationPlatform

pub record Business : Type 0 where
  pub id : ℕ
  pub name : String
  pub currency : Option String

pub record Integration : Type 0 where
  pub id : ℕ
  pub user : ℕ
  pub business : Business
  pub plan : Option ℕ
  pub name : String
  pub platform : IntegrationPlatform
  pub public_key : String
  pub api_key_prefix : Codes
  pub api_key_hash : String
  pub allowed_origins : List String
  pub redirect_url : Option String
  pub webhook_url : Option String
  pub is_active : Bool
  pub billing_status : IntegrationBillingStatus
  pub current_period_end : Option ℕ
  pub last_used_at : Option ℕ
