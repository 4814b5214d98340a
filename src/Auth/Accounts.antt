-- ===== src/Auth/Accounts.antt =====
-- src/auth/services/auth.service.ts: the users, and logging in with a password. The password hash, SHA-256, the signatures of tokens and the
-- random draws are parameters; mails are left out. The role of a user exists. Addresses come in
-- lower case and trimmed.
pub mod Login
pub mod Answers
pub mod Lockout
use mytrackr_backend.Prelude.{
  ℕ, ◌+◌, ◌*◌, ◌/◌, Bool, true, false, ◌&&◌, ◌||◌, not, Option, none, some, String, List, [], ◌∷◌,
  ◌++◌, ◌==◌, ltb, leb, str_eq, any, is_some, or_else, if◌then◌else◌,
}
use mytrackr_backend.Prelude.Codes.{Codes, codes_eq, to_lower_case}
use mytrackr_backend.Auth.Sessions.{
  Session, SessionStore, create_session, find_open, store_token_id, revoke_token,
  revoke_all_user_sessions, revoke_and_blacklist_all_for_user, is_token_revoked,
}

-- The columns of a user that logging in reads and writes. An empty text is missing, and missing
-- settings have nothing set.
pub record User : Type 0 where
  pub id : ℕ
  pub email : Option Codes
  pub phone : Option Codes
  pub google_id : Option String
  pub password_hash : Option String
  pub roles : List String
  pub is_verified : Bool
  pub is_active : Bool
  pub verification_code : Option Codes
  pub verification_code_expires_at : Option ℕ
  pub reset_password_token : Option String
  pub reset_password_expires : Option ℕ
  pub failed_login_attempts : ℕ
  pub lockout_until : Option ℕ
  pub last_password_change : Option ℕ

pub record Accounts : Type 0 where
  pub users : List User
  pub sessions : SessionStore

pub data TokenType : Type 0 where
  access refresh : TokenType

-- The instant of issue is in seconds.
pub record TokenPayload : Type 0 where
  pub sub : ℕ
  pub session : ℕ
  pub type : TokenType
  pub jti : Option String
  pub device : Option String
  pub iat : Option ℕ

-- The clock, whether Redis answers, the libraries, and what is drawn next. `verify_refresh` is none
-- where the signature or the expiry of a token is refused.
pub record Outside : Type 0 where
  pub now : ℕ
  pub up : Bool
  pub verify_password : Codes → String → Bool
  pub hash_password : Codes → String
  pub hash_code : Codes → String
  pub sign : TokenPayload → String
  pub verify_refresh : String → Option TokenPayload
  pub otp : Codes
  pub access_jti : String
  pub refresh_jti : String

pub data AuthError : Type 0 where
  invalid_credentials account_locked google_account not_verified account_inactive : AuthError
  admin_access_denied token_invalid token_revoked device_mismatch user_not_found : AuthError
  password_changed session_not_found already_verified invalid_code code_expired : AuthError
  invalid_token token_exists : AuthError

pub data Answer (A : Type 0) : Type 0 where
  ok : A → Answer A
  thrown : AuthError → Answer A

unfoldable pub find_user : (User → Bool) → List User → Option User
find_user p [] = none
find_user p (u ∷ us) = let later = find_user p us in if p u then some u else later

-- update(id, …)
unfoldable pub update_user : ℕ → (User → User) → List User → List User
update_user k f [] = []
update_user k f (u ∷ us) = (if u.id == k then f u else u) ∷ update_user k f us

abbrev pub change : ℕ → (User → User) → Accounts → Accounts
change k f a = record a { users = update_user k f a.users }

abbrev pub holds : Option Codes → Codes → Bool
holds none text = false
holds (some t) text = codes_eq t text

abbrev pub has_email : Codes → User → Bool
has_email text u = holds u.email text

abbrev pub has_id : ℕ → User → Bool
has_id k u = u.id == k

pub record Tokens : Type 0 where
  pub access_token : String
  pub refresh_token : String

abbrev payload :
    (user session : ℕ)
    → (device : Option String) → TokenType
    → (jti : String) → (iat : ℕ) → TokenPayload
payload user session device type jti iat = record {
  sub = user;
  session = session;
  type = type;
  jti = some jti;
  device = device;
  iat = some iat;
}

-- The second token's row; the first stays where the second is there already.
abbrev pub store_access :
    {A : Type 0} → Outside → (user session : ℕ) → A → List User → SessionStore → Answer A × Accounts
store_access o user session result users s =
    elim (store_token_id o.access_jti user (some session) s) [
      | none ↦ (thrown token_exists, record { users = users; sessions = s })
      | some s' ↦ (ok result, record { users = users; sessions = s' })
    ]

-- The rows of the two tokens, the refresh token's first
abbrev pub store_tokens :
    {A : Type 0} → Outside → (user session : ℕ) → A → Accounts → Answer A × Accounts
store_tokens o user session result a =
    elim (store_token_id o.refresh_jti user (some session) a.sessions) [
      | none ↦ (thrown token_exists, a)
      | some s ↦ store_access o user session result a.users s
    ]

-- generateTokens; the tokens are signed with the instant in seconds
unfoldable pub generate_tokens :
    Outside → (user session : ℕ) → (device : Option String) → Accounts → Answer Tokens × Accounts
generate_tokens o user session device a =
    store_tokens o user session
      (record {
        access_token = o.sign (payload user session device access o.access_jti (o.now / 1000));
        refresh_token = o.sign (payload user session device refresh o.refresh_jti (o.now / 1000));
      })
      a
