-- ===== src/Integrations/Paystack/Connection.antt =====
-- src/integrations/services/integrations.service.ts: connecting a Paystack account, showing it and
-- disconnecting it.
use mytrackr_backend.Prelude.{
  ℕ, ◌+◌, Bool, true, false, ◌||◌, not, Option, none, some, String, [], ◌∷◌, ◌++◌, ltb, length, inl,
  inr, if◌then◌else◌,
}
use mytrackr_backend.Prelude.Codes.{Codes, codes, starts_with}
use mytrackr_backend.Integrations.Entities.{PaystackConnection}
use mytrackr_backend.Integrations.Paystack.{PaystackMetadata, Paystack}
use mytrackr_backend.Integrations.Paystack.Sync.{
  Accounts, find_connection, of_business, invalid_key, not_connected, request_failed, Answer,
  answered, refused, save_account,
}

-- toPaystackConnectionResponse, without the times of the row
pub record PaystackConnectionResponse : Type 0 where
  pub id : ℕ
  pub business : ℕ
  pub key_last4 : Codes
  pub business_name : Option String
  pub business_email : Option String
  pub country : Option String
  pub is_active : Bool
  pub last_synced_at : Option ℕ
  pub last_successful_sync_at : Option ℕ
  pub last_sync_error : Option String

unfoldable pub to_paystack_connection_response : PaystackConnection → PaystackConnectionResponse
to_paystack_connection_response c = record {
  id = c.id;
  business = c.business;
  key_last4 = c.key_last4;
  business_name = c.business_name;
  business_email = c.business_email;
  country = c.country;
  is_active = c.is_active;
  last_synced_at = c.last_synced_at;
  last_successful_sync_at = c.last_successful_sync_at;
  last_sync_error = c.last_sync_error;
}

-- slice(-4)
unfoldable pub last4 : Codes → Codes
last4 [] = []
last4 (c ∷ cs) = let rest = last4 cs in if ltb (length cs) 4 then c ∷ cs else rest

abbrev pub is_secret_key : Codes → Bool
is_secret_key key = starts_with (codes "sk_live_") key || starts_with (codes "sk_test_") key

-- The columns that connecting sets
abbrev pub connect_row :
    Paystack → (user : ℕ) → Codes → PaystackMetadata → PaystackConnection → PaystackConnection
connect_row g user key m c = record c {
  user = user;
  encrypted_secret_key = g.encrypt key;
  key_last4 = last4 key;
  business_name = m.business_name;
  business_email = m.business_email;
  country = m.country;
  is_active = true;
  last_sync_error = none;
}

abbrev pub new_connection : (id business user : ℕ) → PaystackConnection
new_connection id business user = record {
  id = id;
  business = business;
  user = user;
  encrypted_secret_key = [];
  key_last4 = [];
  business_name = none;
  business_email = none;
  country = none;
  is_active = true;
  last_synced_at = none;
  last_successful_sync_at = none;
  last_sync_error = none;
}

abbrev pub connect_with :
    Paystack
    → (business user : ℕ) → Codes
    → PaystackMetadata
    → Option PaystackConnection
    → Accounts
    → Answer PaystackConnectionResponse × Accounts
connect_with g business user key m (some c) a =
    let c' = connect_row g user key m c in
    (answered (to_paystack_connection_response c'), save_account c' a)
connect_with g business user key m none a =
    let c' = connect_row g user key m (new_connection a.next_id business user) in
    (
      answered (to_paystack_connection_response c'),
      record a { connections = a.connections ++ c' ∷ []; next_id = a.next_id + 1 },
    )

-- connectPaystack
unfoldable pub connect_paystack :
    Paystack → (business user : ℕ) → Codes → Accounts → Answer PaystackConnectionResponse × Accounts
connect_paystack g business user key a =
    if not (is_secret_key key) then (refused invalid_key, a) else elim (g.metadata key) [
      | inr message ↦ (refused (request_failed message), a)
      | inl m ↦
          connect_with g business user key m (find_connection (of_business business) a.connections)
            a
    ]

-- getPaystackConnection
unfoldable pub get_paystack_connection :
    (business : ℕ) → Accounts → Answer PaystackConnectionResponse
get_paystack_connection business a = elim (find_connection (of_business business) a.connections) [
  | none ↦ refused not_connected
  | some c ↦ answered (to_paystack_connection_response c)
]

abbrev set_inactive : PaystackConnection → PaystackConnection
set_inactive c = record c { is_active = false }

-- disconnectPaystack
unfoldable pub disconnect_paystack : (business : ℕ) → Accounts → Answer (Unit {0}) × Accounts
disconnect_paystack business a = elim (find_connection (of_business business) a.connections) [
  | none ↦ (refused not_connected, a)
  | some c ↦ (answered tt, save_account (set_inactive c) a)
]
