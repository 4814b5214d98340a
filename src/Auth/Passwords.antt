-- ===== src/Auth/Passwords.antt =====
-- src/auth/services/auth.service.ts: the verification of a registration, and changing and resetting a
-- password.
pub mod Reset
use mytrackr_backend.Prelude.{
  ℕ, ◌+◌, Bool, true, false, ◌&&◌, ◌||◌, not, Option, none, some, String, List, [], ◌∷◌, ltb,
  str_eq, is_some, if◌then◌else◌,
}
use mytrackr_backend.Prelude.Codes.{Codes, codes_eq}
use mytrackr_backend.Auth.Sessions.{SessionStore, create_session, revoke_and_blacklist_all_for_user}
use mytrackr_backend.Auth.Accounts.{
  User, Accounts, Outside, user_not_found, already_verified, invalid_code, code_expired,
  invalid_credentials, invalid_token, Answer, ok, thrown, Tokens, find_user, change, holds,
  has_email, has_id, generate_tokens,
}
use mytrackr_backend.Auth.Accounts.Login.{add_role}

-- The user with this address or telephone number
abbrev pub reached_by : Codes → User → Bool
reached_by text u = holds u.email text || holds u.phone text

-- new Date() > the expiry, where there is one
abbrev pub has_expired : (now : ℕ) → Option ℕ → Bool
has_expired now none = false
has_expired now (some t) = ltb t now

abbrev pub set_verified : User → User
set_verified u = record u {
  is_verified = true;
  is_active = true;
  verification_code = none;
  verification_code_expires_at = none;
}

abbrev pub open_verified : Outside → User → Accounts → Answer Tokens × Accounts
open_verified o u a =
    let b = change u.id (add_role "User") (change u.id set_verified a) in
    let (session, s) = create_session o.now u.id b.sessions in
    generate_tokens o u.id session.id none (record { users = b.users; sessions = s })

-- verifyRegistration
unfoldable pub verify_registration :
    Outside → (email_or_phone code : Codes) → Accounts → Answer Tokens × Accounts
verify_registration o text code a = elim (find_user (reached_by text) a.users) [
  | none ↦ (thrown user_not_found, a)
  | some u ↦
      if u.is_verified
      then (thrown already_verified, a)
      else if not (holds u.verification_code code)
      then (thrown invalid_code, a)
      else if has_expired o.now u.verification_code_expires_at
      then (thrown code_expired, a)
      else open_verified o u a
]

abbrev pub set_code : Outside → User → User
set_code o u = record u {
  verification_code = some o.otp;
  verification_code_expires_at = some (o.now + 600000);
}

-- resendVerification
unfoldable pub resend_verification :
    Outside → (email_or_phone : Codes) → Accounts → Answer (Unit {0}) × Accounts
resend_verification o text a = elim (find_user (reached_by text) a.users) [
  | none ↦ (thrown user_not_found, a)
  | some u ↦
      if u.is_verified then (thrown already_verified, a) else (ok tt, change u.id (set_code o) a)
]

abbrev pub sign_out_everywhere : Outside → (user : ℕ) → Accounts → Accounts
sign_out_everywhere o user a = record a {
  sessions = revoke_and_blacklist_all_for_user o.up o.now user a.sessions;
}

abbrev pub set_password : Outside → Codes → User → User
set_password o password u = record u {
  password_hash = some (o.hash_password password);
  last_password_change = some o.now;
}

abbrev password_matches : Outside → Codes → Option String → Bool
password_matches o password none = false
password_matches o password (some hash) = o.verify_password password hash

-- changePassword
unfoldable pub change_password :
    Outside
    → (user : ℕ) → (old_password new_password : Codes) → Accounts
    → Answer (Unit {0}) × Accounts
change_password o user old_password new_password a = elim (find_user (has_id user) a.users) [
  | none ↦ (thrown user_not_found, a)
  | some u ↦
      if not (is_some u.password_hash)
      then (thrown user_not_found, a)
      else if password_matches o old_password u.password_hash
      then (ok tt, sign_out_everywhere o user (change u.id (set_password o new_password) a))
      else (thrown invalid_credentials, a)
]

abbrev pub set_reset_code : Outside → User → User
set_reset_code o u = record u {
  reset_password_token = some (o.hash_code o.otp);
  reset_password_expires = some (o.now + 3600000);
}

-- forgotPassword, which answers the same whether or not there is such a user
unfoldable pub forgot_password : Outside → (email : Codes) → Accounts → Accounts
forgot_password o email a = elim (find_user (has_email email) a.users) [
  | none ↦ a
  | some u ↦ change u.id (set_reset_code o) a
]

abbrev same_code : Outside → Option String → Codes → Bool
same_code o none code = false
same_code o (some stored) code = str_eq stored (o.hash_code code)

-- There is a code, it has an expiry that is not over, and it is the one that is given.
abbrev pub accepts_code : Outside → Codes → User → Bool
accepts_code o code u =
    is_some u.reset_password_expires
    && (not (has_expired o.now u.reset_password_expires) && same_code o u.reset_password_token code)

abbrev pub set_new_password : Outside → Codes → User → User
set_new_password o password u = record u {
  password_hash = some (o.hash_password password);
  reset_password_token = none;
  reset_password_expires = none;
  last_password_change = some o.now;
}

-- resetPassword
unfoldable pub reset_password :
    Outside → (email token new_password : Codes) → Accounts → Answer (Unit {0}) × Accounts
reset_password o email token new_password a = elim (find_user (has_email email) a.users) [
  | none ↦ (thrown invalid_token, a)
  | some u ↦
      if accepts_code o token u
      then (ok tt, sign_out_everywhere o u.id (change u.id (set_new_password o new_password) a))
      else (thrown invalid_token, a)
]
