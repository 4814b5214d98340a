-- ===== src/Auth/Tests.antt =====
-- A user who is locked out, exchanges a token, and resets the password.
use mytrackr_backend.Prelude.{
  ℕ, ◌≡◌, refl, Bool, true, false, none, some, List, [], ◌∷◌, arith, is_some,
}
use mytrackr_backend.Prelude.Codes.{Codes, codes, codes_eq}
use mytrackr_backend.Auth.Sessions.{
  RevokedToken, find_token, find_open, is_blacklisted, blacklist, revoked_in, store_token_id,
  mark_revoked, revoke_token, revoke_token_with_ttl, is_token_revoked,
}
use mytrackr_backend.Auth.Accounts.{
  User, Accounts, TokenPayload, refresh, Outside, ok, thrown, account_locked, token_revoked,
  invalid_token, find_user, has_email, generate_tokens,
}
use mytrackr_backend.Auth.Accounts.Login.{login_with_email}
use mytrackr_backend.Auth.Accounts.Answers.{IsRow}
use mytrackr_backend.Auth.Accounts.Lockout.{Attempt, attempt_all, login_with_email_locks}
use mytrackr_backend.Auth.Refresh.{refresh_token}
use mytrackr_backend.Auth.Refresh.Rotation.{refresh_token_once}
use mytrackr_backend.Auth.Passwords.{reset_password}
use mytrackr_backend.Auth.Passwords.Reset.{reset_password_once}

abbrev address : Codes
address = codes "ada@shop.example"

abbrev ada : User
ada = record {
  id = 7;
  email = some address;
  phone = none;
  google_id = none;
  password_hash = some "hash";
  roles = "User" ∷ [];
  is_verified = true;
  is_active = true;
  verification_code = none;
  verification_code_expires_at = none;
  reset_password_token = some "code";
  reset_password_expires = some 9000;
  failed_login_attempts = 0;
  lockout_until = none;
  last_password_change = none;
}

abbrev row : RevokedToken
row = record { jti = "r1"; user = 7; session = some 1; revoked_at = none }

abbrev signed_in : Accounts
signed_in = record {
  users = ada ∷ [];
  sessions = record {
    sessions = record { id = 1; user = 7; last_active_at = 5; revoked_at = none } ∷ [];
    tokens = row ∷ [];
    blacklisted = [];
    next_id = 2;
  };
}

abbrev ada_payload : TokenPayload
ada_payload = record {
  sub = 7;
  session = 1;
  type = refresh;
  jti = some "r1";
  device = none;
  iat = some 1;
}

-- Passwords fit or not, as the flag says.
abbrev at : (now : ℕ) → Bool → Outside
at now fits = record {
  now = now;
  up = false;
  verify_password = λ _ _. fits;
  hash_password = λ _. "new hash";
  hash_code = λ _. "code";
  sign = λ _. "signed";
  verify_refresh = λ _. some ada_payload;
  otp = codes "123456";
  access_jti = "a2";
  refresh_jti = "r2";
}

abbrev wrong : ℕ → Attempt
wrong now = record { outside = at now false; password = codes "guess"; device = none }

abbrev attempts : List Attempt
attempts = wrong 2000 ∷ wrong 2100 ∷ wrong 2200 ∷ wrong 2300 ∷ wrong 2400 ∷ []

ada_found : IsRow address ada signed_in
unfolding find_user codes_eq
ada_found = record { by_email = refl; by_id = refl }

login_with_email_locks_example :
    login_with_email
      (at 3000 true)
      address
      (codes "secret")
      none
      (attempt_all address attempts signed_in)
    ≡ (thrown account_locked, attempt_all address attempts signed_in)
login_with_email_locks_example =
    login_with_email_locks 2000 address (codes "secret") attempts (at 3000 true) none ada signed_in
      ada_found (record { password = refl; verified = refl; active = refl; role = refl })
      (λ now later. refl)
      (
        (omega arith, refl),
        (
          (omega arith, refl),
          ((omega arith, refl), ((omega arith, refl), ((omega arith, refl), tt))),
        ),
      )
      (omega arith) (omega arith)

abbrev exchanged : Accounts
exchanged = (refresh_token (at 2000 true) "token" none signed_in).1

exchanged_lem :
    refresh_token (at 2000 true) "token" none signed_in
    ≡ (ok (record { access_token = "signed"; refresh_token = "signed" }), exchanged)
unfolding refresh_token find_user find_open is_token_revoked is_blacklisted revoked_in find_token
    generate_tokens store_token_id revoke_token revoke_token_with_ttl blacklist mark_revoked
exchanged_lem = refl

row_found : find_token "r1" signed_in.sessions.tokens ≡ some row
unfolding find_token
row_found = refl

row_there : is_some (find_token "r1" signed_in.sessions.tokens) ≡ true
unfolding find_token
row_there = refl

refresh_token_once_example :
    refresh_token (at 8000000 true) "token" (some "phone") exchanged
    ≡ (thrown token_revoked, exchanged)
refresh_token_once_example =
    refresh_token_once (at 2000 true) (at 8000000 true) "token" "token" none (some "phone")
      signed_in exchanged (record { access_token = "signed"; refresh_token = "signed" }) ada_payload
      ada_payload "r1" refl refl row_there exchanged_lem refl refl refl

abbrev reset_ada : Accounts
reset_ada = (reset_password (at 2000 true) address (codes "123456") (codes "secret") signed_in).1

ada_there : find_user (has_email address) signed_in.users ≡ some ada
unfolding find_user codes_eq
ada_there = refl

reset_lem :
    reset_password (at 2000 true) address (codes "123456") (codes "secret") signed_in
    ≡ (ok tt, reset_ada)
unfolding reset_password find_user codes_eq
reset_lem = refl

reset_password_once_example :
    (reset_password (at 2500 true) address (codes "123456") (codes "mine") reset_ada
      ≡ (thrown invalid_token, reset_ada))
    × (refresh_token (at 2500 true) "token" none reset_ada ≡ (thrown token_revoked, reset_ada))
reset_password_once_example =
    reset_password_once (at 2000 true) (at 2500 true) address (codes "123456") (codes "secret")
      (codes "123456") (codes "mine") signed_in reset_ada ada "token" none ada_payload "r1" row
      ada_there reset_lem refl refl refl row_found refl
