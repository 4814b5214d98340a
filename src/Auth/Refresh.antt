-- ===== src/Auth/Refresh.antt =====
-- src/auth/services/auth.service.ts: refreshToken.
pub mod Rotation
use mytrackr_backend.Prelude.{
  ℕ, ◌+◌, ◌*◌, Bool, true, false, ◌&&◌, not, Option, none, some, String, List, [], ◌∷◌, ◌==◌, ltb,
  str_eq, if◌then◌else◌,
}
use mytrackr_backend.Auth.Sessions.{
  Session, SessionStore, find_open, revoke_token, revoke_all_user_sessions, is_token_revoked,
}
use mytrackr_backend.Auth.Accounts.{
  User, Accounts, TokenType, access, refresh, TokenPayload, Outside, AuthError, token_invalid,
  token_revoked, device_mismatch, user_not_found, account_inactive, password_changed,
  session_not_found, Answer, ok, thrown, Tokens, find_user, has_id, generate_tokens,
}

abbrev pub is_refresh : TokenType → Bool
is_refresh refresh = true
is_refresh access = false

abbrev pub is_revoked : Outside → Option String → SessionStore → Bool
is_revoked o none s = false
is_revoked o (some jti) s = is_token_revoked o.up o.now jti s

-- Both are there and differ.
abbrev pub mismatch : Option String → Option String → Bool
mismatch none b = false
mismatch (some a) none = false
mismatch (some a) (some b) = not (str_eq a b)

-- The password was changed after the token was issued.
abbrev pub outdated : (changed issued : Option ℕ) → Bool
outdated none issued = false
outdated (some t) none = false
outdated (some t) (some iat) = if iat == 0 then false else ltb (iat * 1000) t

abbrev pub revoke_own : Outside → Option String → SessionStore → SessionStore
revoke_own o none s = s
revoke_own o (some jti) s = revoke_token o.up o.now jti s

abbrev pub with_sessions : SessionStore → Accounts → Accounts
with_sessions s a = record a { sessions = s }

abbrev pub refresh_session :
    Outside
    → (device : Option String) → TokenPayload
    → User
    → Option Session
    → Accounts
    → Answer Tokens × Accounts
refresh_session o device p u none a = (thrown session_not_found, a)
refresh_session o device p u (some x) a =
    generate_tokens o u.id x.id device (with_sessions (revoke_own o p.jti a.sessions) a)

abbrev pub refresh_user :
    Outside
    → (device : Option String) → TokenPayload
    → Option User
    → Accounts
    → Answer Tokens × Accounts
refresh_user o device p none a = (thrown user_not_found, a)
refresh_user o device p (some u) a =
    if not u.is_active
    then (thrown account_inactive, a)
    else if outdated u.last_password_change p.iat
    then (
      thrown password_changed,
      with_sessions (revoke_all_user_sessions o.up o.now u.id a.sessions) a,
    )
    else refresh_session o device p u (find_open p.session a.sessions.sessions) a

abbrev pub refresh_payload :
    Outside → (device : Option String) → Option TokenPayload → Accounts → Answer Tokens × Accounts
refresh_payload o device none a = (thrown token_invalid, a)
refresh_payload o device (some p) a =
    if not (is_refresh p.type)
    then (thrown token_invalid, a)
    else if is_revoked o p.jti a.sessions
    then (thrown token_revoked, a)
    else if mismatch device p.device
    then (thrown device_mismatch, a)
    else refresh_user o device p (find_user (has_id p.sub) a.users) a

-- refreshToken
unfoldable pub refresh_token :
    Outside → (token : String) → (device : Option String) → Accounts → Answer Tokens × Accounts
refresh_token o token device a = refresh_payload o device (o.verify_refresh token) a
