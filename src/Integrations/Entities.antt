-- ===== src/Integrations/Entities.antt =====
-- src/integrations/entities: the events of integrations and the connections to Paystack, and what a
-- webhook says of an integration.
-- Texts that the code looks into are code points; an empty text that it tests for is `none`.
use mytrackr_backend.Prelude.{ℕ, Bool, Option, String, List}
use mytrackr_backend.Prelude.Codes.{Codes}
use mytrackr_backend.Payments.Entities.{
  IntegrationBillingStatus, IntegrationPlatform, Integration, react, wordpress, custom,
}
use mytrackr_backend.Integrations.Delivery

abbrev pub platform_text : IntegrationPlatform → String
platform_text react = "react"
platform_text wordpress = "wordpress"
platform_text custom = "custom"

abbrev pub billing_text : IntegrationBillingStatus → String
billing_text IntegrationBillingStatus.pending = "pending"
billing_text IntegrationBillingStatus.active = "active"
billing_text IntegrationBillingStatus.past_due = "past_due"
billing_text IntegrationBillingStatus.canceled = "canceled"

-- What a webhook says of an integration
abbrev pub outbound : Integration → Delivery.Integration
outbound i = record {
  id = i.id;
  name = i.name;
  platform = platform_text i.platform;
  public_key = i.public_key;
  webhook_url = i.webhook_url;
  redirect_url = i.redirect_url;
  billing_status = billing_text i.billing_status;
  is_active = i.is_active;
}

pub data IntegrationEventType : Type 0 where
  order_paid order_refunded order_cancelled payment_failed : IntegrationEventType

pub record IntegrationEventItem : Type 0 where
  pub product_id : Option String
  pub name : String
  pub category : Option String
  pub quantity : ℕ
  pub unit_price : ℕ
  pub total : ℕ

-- Amounts are hundredths; the validation of a request refuses those below 0.
pub record IntegrationEvent : Type 0 where
  pub id : ℕ
  pub integration : ℕ
  pub business : ℕ
  pub user : ℕ
  pub event : IntegrationEventType
  pub external_id : String
  pub order_id : Option String
  pub amount : ℕ
  pub tax_amount : ℕ
  pub payment_fee : ℕ
  pub currency : String
  pub payment_provider : Option String
  pub customer_email : Option Codes
  pub customer_name : Option String
  pub occurred_at : ℕ
  pub metadata : Option String
  pub items : List IntegrationEventItem

-- `encrypted_secret_key` is what the encryption service makes of the key.
pub record PaystackConnection : Type 0 where
  pub id : ℕ
  pub business : ℕ
  pub user : ℕ
  pub encrypted_secret_key : Codes
  pub key_last4 : Codes
  pub business_name : Option String
  pub business_email : Option String
  pub country : Option String
  pub is_active : Bool
  pub last_synced_at : Option ℕ
  pub last_successful_sync_at : Option ℕ
  pub last_sync_error : Option String
