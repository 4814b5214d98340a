-- ===== src/Auth/Accounts/Login.antt =====
-- src/auth/services/auth.service.ts: logging in with a password, and the lockout.
use mytrackr_backend.Prelude.{
  ℕ, ◌+◌, Bool, true, false, ◌&&◌, not, Option, none, some, String, List, [], ◌∷◌, ◌++◌, ltb, leb,
  str_eq, any, is_some, or_else, if◌then◌else◌,
}
use mytrackr_backend.Prelude.Codes.{Codes}
use mytrackr_backend.Auth.Sessions.{create_session}
use mytrackr_backend.Auth.Accounts.{
  User, Accounts, Outside, AuthError, invalid_credentials, account_locked, google_account,
  not_verified, account_inactive, admin_access_denied, Answer, thrown, find_user, update_user,
  change, has_email, has_id, Tokens, generate_tokens,
}

abbrev pub max_attempts : ℕ
max_attempts = 5

-- Fifteen minutes
abbrev pub lockout_period : ℕ
lockout_period = 900000

abbrev pub add_failure : (now : ℕ) → User → User → User
add_failure now read u = record u {
  failed_login_attempts = read.failed_login_attempts + 1;
  lockout_until =
      if leb max_attempts (read.failed_login_attempts + 1)
      then some (now + lockout_period)
      else read.lockout_until;
}

-- incrementFailedAttempts, of the row that was read
unfoldable pub increment_failed_attempts : (now : ℕ) → User → Accounts → Accounts
increment_failed_attempts now u a = change u.id (add_failure now u) a

abbrev pub clear_failures : User → User
clear_failures u = record u { failed_login_attempts = 0; lockout_until = none }

abbrev pub is_locked : (now : ℕ) → User → Bool
is_locked now u = elim u.lockout_until [ none ↦ false | some t ↦ ltb now t ]

abbrev pub has_role : String → User → Bool
has_role role u = any (λ r. str_eq r role) u.roles

-- The roles that a way to log in asks for, if any, and whether it gives the role of a user
pub record LoginOptions : Type 0 where
  pub required_roles : List String
  pub assign_default_user_role : Bool

abbrev lacks_role : LoginOptions → User → Bool
lacks_role q u = elim q.required_roles [
  | [] ↦ false
  | r ∷ rs ↦ not (any (λ role. any (str_eq role) (r ∷ rs)) u.roles)
]

-- The checks before the password, in order
unfoldable pub refusal : LoginOptions → (now : ℕ) → User → Option AuthError
refusal q now u =
    if is_locked now u
    then some account_locked
    else if not (is_some u.password_hash)
    then (if is_some u.google_id then some google_account else some invalid_credentials)
    else if not u.is_verified
    then some not_verified
    else if not u.is_active
    then some account_inactive
    else if lacks_role q u
    then some admin_access_denied
    else none

abbrev pub add_role : String → User → User
add_role role u = if has_role role u then u else record u { roles = u.roles ++ role ∷ [] }

-- The row after the role of a user has been given and the row read again
abbrev pub with_role : LoginOptions → User → Accounts → User × Accounts
with_role q u a =
    if q.assign_default_user_role && not (has_role "User" u)
    then (
      or_else (find_user (has_id u.id) (update_user u.id (add_role "User") a.users)) u,
      change u.id (add_role "User") a,
    )
    else (u, a)

-- Where the password is right: the failures are cleared, and a session and its tokens are made.
abbrev pub open_session :
    Outside → (device : Option String) → User → Accounts → Answer Tokens × Accounts
open_session o device u a =
    let b = if ltb 0 u.failed_login_attempts then change u.id clear_failures a else a in
    let (session, s) = create_session o.now u.id b.sessions in
    generate_tokens o u.id session.id device (record { users = b.users; sessions = s })

abbrev pub check_password :
    Outside → Codes → (device : Option String) → User × Accounts → Answer Tokens × Accounts
check_password o password device (u, a) =
    if o.verify_password password (or_else u.password_hash "")
    then open_session o device u a
    else (thrown invalid_credentials, increment_failed_attempts o.now u a)

-- validateAndLoginUser
unfoldable pub validate_and_login_user :
    Outside
    → LoginOptions
    → Option User
    → Codes
    → (device : Option String) → Accounts
    → Answer Tokens × Accounts
validate_and_login_user o q none password device a = (thrown invalid_credentials, a)
validate_and_login_user o q (some u) password device a = elim (refusal q o.now u) [
  | some e ↦ (thrown e, a)
  | none ↦ check_password o password device (with_role q u a)
]

abbrev pub user_login : LoginOptions
user_login = record { required_roles = []; assign_default_user_role = true }

-- loginWithEmail, of an address that is normalised
unfoldable pub login_with_email :
    Outside
    → (email password : Codes) → (device : Option String) → Accounts
    → Answer Tokens × Accounts
login_with_email o email password device a =
    validate_and_login_user o user_login (find_user (has_email email) a.users) password device a

-- ADMIN_LOGIN_ROLES
abbrev pub admin_login : LoginOptions
admin_login = record {
  required_roles = "Admin" ∷ "Super Admin" ∷ [];
  assign_default_user_role = false;
}

-- loginAsAdmin
unfoldable pub login_as_admin :
    Outside
    → (email password : Codes) → (device : Option String) → Accounts
    → Answer Tokens × Accounts
login_as_admin o email password device a =
    validate_and_login_user o admin_login (find_user (has_email email) a.users) password device a
