-- ===== src/Auth/Sessions/Closed.antt =====
-- Closing sessions: a closed session is not found again, and signing out closes all of a user's.
use mytrackr_backend.Prelude.{
  ℕ, ◌≡◌, ◌∙◌, refl, Bool, true, none, List, [], ◌∷◌, arith, ◌==◌, any, keep, map, All, if_both,
}
use mytrackr_backend.Auth.Sessions.{
  Session, RevokedToken, SessionStore, find_open, open_of, mark_closed, revoke_tokens, blacklist,
  revoke_token_with_ttl, revoke_session_with_tokens, revoke_sessions, revoke_all_user_sessions,
  get_user_sessions, sort_by_activity, revoke_and_blacklist_all_for_user, live_of, refresh_ttl,
}

sessions-revoke :
    (up : Bool) (now : ℕ) (t : RevokedToken) (ttl : ℕ) (s : SessionStore)
    → (revoke_token_with_ttl up now t.jti ttl s).sessions ≡ s.sessions
unfolding revoke_token_with_ttl blacklist
sessions-revoke up now t ttl s = ground arith

sessions-revoke_tokens :
    (up : Bool) (now : ℕ) (ts : List RevokedToken) (s : SessionStore)
    → (revoke_tokens up now ts s).sessions ≡ s.sessions
unfolding revoke_tokens
sessions-revoke_tokens up now [] s = refl
sessions-revoke_tokens up now (t ∷ ts) s =
    sessions-revoke_tokens up now ts (revoke_token_with_ttl up now t.jti refresh_ttl s)
    ∙ sessions-revoke up now t refresh_ttl s

sessions-revoke_session :
    (up : Bool) (now id : ℕ) (s : SessionStore)
    → (revoke_session_with_tokens up now id s).sessions ≡ mark_closed now id s.sessions
unfolding revoke_session_with_tokens
sessions-revoke_session up now id s = rw sessions-revoke_tokens refl

find_open-mark_closed :
    (now id : ℕ) (xs : List Session) → find_open id (mark_closed now id xs) ≡ none
unfolding find_open mark_closed
find_open-mark_closed now id [] = refl
find_open-mark_closed now id (x ∷ xs) = ground (arith, find_open-mark_closed now id xs)

-- The open sessions of the user are among those with the ids.
abbrev Listed : ℕ → List ℕ → Session → Type 0
Listed user ids x = open_of user x ≡ true → any (λ i. i == x.id) ids ≡ true

Listed-mark_closed :
    (now user id : ℕ) (ids : List ℕ) (xs : List Session)
    → All (Listed user (id ∷ ids)) xs
    → All (Listed user ids) (mark_closed now id xs)
unfolding mark_closed
Listed-mark_closed now user id ids [] h = tt
Listed-mark_closed now user id ids (x ∷ xs) (h, hs) =
    (ground arith, Listed-mark_closed now user id ids xs hs)

abbrev ids_of : List Session → List ℕ
ids_of = map (λ x. x.id)

Listed-revoke_sessions :
    (up : Bool) (now user : ℕ) (ys : List Session) (s : SessionStore)
    → All (Listed user (ids_of ys)) s.sessions
    → All (Listed user []) (revoke_sessions up now ys s).sessions
unfolding revoke_sessions
Listed-revoke_sessions up now user [] s h = h
Listed-revoke_sessions up now user (y ∷ ys) s h =
    Listed-revoke_sessions up now user ys (revoke_session_with_tokens up now y.id s)
      (rw sessions-revoke_session (Listed-mark_closed now user y.id (ids_of ys) s.sessions h))

Listed-weaken :
    (user id : ℕ) (ids : List ℕ) (xs : List Session)
    → All (Listed user ids) xs
    → All (Listed user (id ∷ ids)) xs
Listed-weaken user id ids [] h = tt
Listed-weaken user id ids (x ∷ xs) (h, hs) = (ground arith, Listed-weaken user id ids xs hs)

Listed-keep :
    (user : ℕ) (xs : List Session) → All (Listed user (ids_of (keep (open_of user) xs))) xs
Listed-keep user [] = tt
Listed-keep user (x ∷ xs) =
    if_both (λ ys. All (Listed user (ids_of ys)) (x ∷ xs)) (open_of user x)
      (x ∷ keep (open_of user) xs) (keep (open_of user) xs)
      (λ _. (
        ground arith,
        Listed-weaken user x.id (ids_of (keep (open_of user) xs)) xs (Listed-keep user xs),
      ))
      (λ no. (ground arith, Listed-keep user xs))

keep_none : (user : ℕ) (xs : List Session) → All (Listed user []) xs → keep (open_of user) xs ≡ []
keep_none user [] h = refl
keep_none user (x ∷ xs) (h, hs) = ground (arith, keep_none user xs hs)

-- Revoking a session closes it: it is not found again by its id. Signing a user out everywhere
-- leaves the user without a session.
pub revoke_sessions-get :
    (up : Bool) (now id user : ℕ) (s : SessionStore)
    → (find_open id (revoke_session_with_tokens up now id s).sessions ≡ none)
      × (get_user_sessions user (revoke_and_blacklist_all_for_user up now user s) ≡ [])
unfolding get_user_sessions revoke_and_blacklist_all_for_user revoke_all_user_sessions
    sort_by_activity
revoke_sessions-get up now id user s =
    let s' = revoke_tokens up now (keep (live_of user) s.tokens) s in
    let closed =
      Listed-revoke_sessions up now user (keep (open_of user) s'.sessions) s'
        (Listed-keep user s'.sessions) in
    (
      rw sessions-revoke_session (find_open-mark_closed now id s.sessions),
      rw (keep_none user _ closed) refl,
    )
