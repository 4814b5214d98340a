-- ===== src/Auth/Sessions.antt =====
-- src/auth/services/session.service.ts with src/common/redis/token-blacklist.service.ts: sessions,
-- the identifiers of their tokens, and the blacklist in Redis, whose keys expire. `up` says whether
-- Redis answers during the operation: its failures are swallowed. Device and address are only stored.
pub mod Revoked
pub mod Closed
mod Tests
use mytrackr_backend.Prelude.{
  ℕ, ◌+◌, ◌*◌, Bool, true, false, ◌&&◌, ◌||◌, not, Option, none, some, String, List, [], ◌∷◌, ◌++◌,
  map, ◌==◌, ltb, leb, str_eq, keep, any, is_some, if◌then◌else◌,
}

pub record Session : Type 0 where
  pub id : ℕ
  pub user : ℕ
  pub last_active_at : ℕ
  pub revoked_at : Option ℕ

pub record RevokedToken : Type 0 where
  pub jti : String
  pub user : ℕ
  pub session : Option ℕ
  pub revoked_at : Option ℕ

pub record SessionStore : Type 0 where
  pub sessions : List Session
  pub tokens : List RevokedToken
  -- The keys of the blacklist, each with the instant at which it expires
  pub blacklisted : List (String × ℕ)
  pub next_id : ℕ

-- In milliseconds
abbrev pub access_ttl : ℕ
access_ttl = 900000

abbrev pub refresh_ttl : ℕ
refresh_ttl = 604800000

abbrev other_key : String → String × ℕ → Bool
other_key jti (key, until) = not (str_eq key jti)

-- blacklist: SET … EX … replaces the key
unfoldable pub blacklist :
    (up : Bool) → (now : ℕ) → String → (ttl : ℕ) → SessionStore → SessionStore
blacklist up now jti ttl s =
    if up
    then record s { blacklisted = (jti, now + ttl) ∷ keep (other_key jti) s.blacklisted }
    else s

abbrev holds : ℕ → String → String × ℕ → Bool
holds now jti (key, until) = str_eq key jti && ltb now until

-- isBlacklisted
unfoldable pub is_blacklisted : (up : Bool) → (now : ℕ) → String → SessionStore → Bool
is_blacklisted up now jti s = up && any (holds now jti) s.blacklisted

-- createSession
unfoldable pub create_session : (now user : ℕ) → SessionStore → Session × SessionStore
create_session now user s =
    let row : Session = record {
      id = s.next_id;
      user = user;
      last_active_at = now;
      revoked_at = none;
    } in
    (row, record s { sessions = s.sessions ++ row ∷ []; next_id = s.next_id + 1 })

abbrev pub is_open : Session → Bool
is_open x = not (is_some x.revoked_at)

-- getSession
unfoldable pub find_open : ℕ → List Session → Option Session
find_open id [] = none
find_open id (x ∷ xs) = if x.id == id && is_open x then some x else find_open id xs

abbrev pub open_of : ℕ → Session → Bool
open_of user x = x.user == user && is_open x

unfoldable pub insert_by_activity : Session → List Session → List Session
insert_by_activity r [] = r ∷ []
insert_by_activity r (x ∷ xs) =
    let later = x ∷ insert_by_activity r xs in
    if leb x.last_active_at r.last_active_at then r ∷ x ∷ xs else later

unfoldable pub sort_by_activity : List Session → List Session
sort_by_activity [] = []
sort_by_activity (x ∷ xs) = insert_by_activity x (sort_by_activity xs)

-- getUserSessions
unfoldable pub get_user_sessions : ℕ → SessionStore → List Session
get_user_sessions user s = sort_by_activity (keep (open_of user) s.sessions)

unfoldable pub touch : (id now : ℕ) → List Session → List Session
touch id now [] = []
touch id now (x ∷ xs) =
    (if x.id == id then record x { last_active_at = now } else x) ∷ touch id now xs

-- updateSessionActivity
unfoldable pub update_session_activity : (id now : ℕ) → SessionStore → SessionStore
update_session_activity id now s = record s { sessions = touch id now s.sessions }

unfoldable pub find_token : String → List RevokedToken → Option RevokedToken
find_token jti [] = none
find_token jti (t ∷ ts) = if str_eq t.jti jti then some t else find_token jti ts

-- storeTokenId; `none` is the violation of the unique index
unfoldable pub store_token_id :
    String → (user : ℕ) → (session : Option ℕ) → SessionStore → Option SessionStore
store_token_id jti user session s =
    let row : RevokedToken = record {
      jti = jti;
      user = user;
      session = session;
      revoked_at = none;
    } in
    if is_some (find_token jti s.tokens)
    then none
    else some (record s { tokens = s.tokens ++ row ∷ [] })

unfoldable pub mark_revoked : (now : ℕ) → String → List RevokedToken → List RevokedToken
mark_revoked now jti [] = []
mark_revoked now jti (t ∷ ts) =
    (if str_eq t.jti jti then record t { revoked_at = some now } else t) ∷ mark_revoked now jti ts

-- revokeTokenWithTtl
unfoldable pub revoke_token_with_ttl :
    (up : Bool) → (now : ℕ) → String → (ttl : ℕ) → SessionStore → SessionStore
revoke_token_with_ttl up now jti ttl s =
    blacklist up now jti ttl (record s { tokens = mark_revoked now jti s.tokens })

-- revokeToken
unfoldable pub revoke_token : (up : Bool) → (now : ℕ) → String → SessionStore → SessionStore
revoke_token up now jti = revoke_token_with_ttl up now jti access_ttl

-- The loops over the tokens found
unfoldable pub revoke_tokens :
    (up : Bool) → (now : ℕ) → List RevokedToken → SessionStore → SessionStore
revoke_tokens up now [] s = s
revoke_tokens up now (t ∷ ts) s =
    revoke_tokens up now ts (revoke_token_with_ttl up now t.jti refresh_ttl s)

abbrev pub is_live : RevokedToken → Bool
is_live t = not (is_some t.revoked_at)

abbrev pub live_in : ℕ → RevokedToken → Bool
live_in id t = elim t.session [ none ↦ false | some k ↦ k == id && is_live t ]

abbrev pub live_of : ℕ → RevokedToken → Bool
live_of user t = t.user == user && is_live t

unfoldable pub mark_closed : (now id : ℕ) → List Session → List Session
mark_closed now id [] = []
mark_closed now id (x ∷ xs) =
    (if x.id == id then record x { revoked_at = some now } else x) ∷ mark_closed now id xs

abbrev close : (now id : ℕ) → SessionStore → SessionStore
close now id s = record s { sessions = mark_closed now id s.sessions }

-- revokeSessionWithTokens, which revokeSession calls
unfoldable pub revoke_session_with_tokens : (up : Bool) → (now id : ℕ) → SessionStore → SessionStore
revoke_session_with_tokens up now id s =
    close now id (revoke_tokens up now (keep (live_in id) s.tokens) s)

unfoldable pub revoke_sessions :
    (up : Bool) → (now : ℕ) → List Session → SessionStore → SessionStore
revoke_sessions up now [] s = s
revoke_sessions up now (x ∷ xs) s =
    revoke_sessions up now xs (revoke_session_with_tokens up now x.id s)

-- revokeAllUserSessions
unfoldable pub revoke_all_user_sessions : (up : Bool) → (now user : ℕ) → SessionStore → SessionStore
revoke_all_user_sessions up now user s = revoke_sessions up now (keep (open_of user) s.sessions) s

-- revokeAndBlacklistAllForUser
unfoldable pub revoke_and_blacklist_all_for_user :
    (up : Bool) → (now user : ℕ) → SessionStore → SessionStore
revoke_and_blacklist_all_for_user up now user s =
    revoke_all_user_sessions up now user (revoke_tokens up now (keep (live_of user) s.tokens) s)

-- The row of a token says that it is revoked.
unfoldable pub revoked_in : String → List RevokedToken → Bool
revoked_in jti ts = elim (find_token jti ts) [ none ↦ false | some t ↦ is_some t.revoked_at ]

-- isTokenRevoked
unfoldable pub is_token_revoked : (up : Bool) → (now : ℕ) → String → SessionStore → Bool
is_token_revoked up now jti s =
    if is_blacklisted up now jti s then true else revoked_in jti s.tokens
