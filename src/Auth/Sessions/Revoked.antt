-- ===== src/Auth/Sessions/Revoked.antt =====
-- A token that is revoked in the table stays revoked, and signing a user out revokes all of them.
use mathlib.Core.List.{Memᴰ}
use mytrackr_backend.Prelude.{
  ℕ, ◌≡◌, sym, refl, Bool, true, false, some, String, List, [], ◌∷◌, arith, str_eq, str_eq_iff,
  is_some, keep, inl, inr, Bool-cases, if_both,
}
use mytrackr_backend.Auth.Sessions.{
  RevokedToken, Session, SessionStore, find_token, mark_revoked, revoked_in, blacklist,
  revoke_token_with_ttl, revoke_tokens, live_in, live_of, open_of, revoke_session_with_tokens,
  revoke_sessions, revoke_all_user_sessions, revoke_and_blacklist_all_for_user, is_token_revoked,
}

find_token-mem :
    (k : String) (ts : List RevokedToken) (t : RevokedToken)
    → find_token k ts ≡ some t
    → Memᴰ t ts × (t.jti ≡ k)
unfolding find_token
find_token-mem k [] t h = cc
find_token-mem k (x ∷ ts) t h = elim (Bool-cases (str_eq x.jti k)) [
  | inl same ↦
      (let e : x ≡ t = (let e' = (rw same at h) in cc) in
        rw (sym e) (Memᴰ.head refl, (str_eq_iff x.jti k).0 same))
  | inr other ↦
      (let h' = (rw other at h) in let (m, e) = find_token-mem k ts t h' in (Memᴰ.tail m, e))
]

revoked_in-mark_revoked :
    (now : ℕ) (j k : String) (ts : List RevokedToken)
    → revoked_in k ts ≡ true
    → revoked_in k (mark_revoked now j ts) ≡ true
unfolding revoked_in find_token mark_revoked
revoked_in-mark_revoked now j k [] h = h
revoked_in-mark_revoked now j k (x ∷ ts) h = ground (arith, revoked_in-mark_revoked now j k ts)

known-mark_revoked :
    (now : ℕ) (j k : String) (ts : List RevokedToken)
    → is_some (find_token k ts) ≡ true
    → is_some (find_token k (mark_revoked now j ts)) ≡ true
unfolding find_token mark_revoked
known-mark_revoked now j k [] h = h
known-mark_revoked now j k (x ∷ ts) h = ground (arith, known-mark_revoked now j k ts)

pub mark_revoked_own :
    (now : ℕ) (k : String) (ts : List RevokedToken)
    → is_some (find_token k ts) ≡ true
    → revoked_in k (mark_revoked now k ts) ≡ true
unfolding revoked_in find_token mark_revoked
mark_revoked_own now k [] h = cc
mark_revoked_own now k (x ∷ ts) h = ground (arith, mark_revoked_own now k ts)

pub tokens-revoke :
    (up : Bool) (now : ℕ) (j : String) (ttl : ℕ) (s : SessionStore)
    → (revoke_token_with_ttl up now j ttl s).tokens ≡ mark_revoked now j s.tokens
unfolding revoke_token_with_ttl blacklist
tokens-revoke up now j ttl s = ground arith

module _ (up : Bool) (now : ℕ) (k : String) where
  revoke_tokens-keeps :
      (ts : List RevokedToken) (s : SessionStore)
      → revoked_in k s.tokens ≡ true
      → revoked_in k (revoke_tokens up now ts s).tokens ≡ true
  unfolding revoke_tokens
  revoke_tokens-keeps [] s h = h
  revoke_tokens-keeps (t ∷ ts) s h =
      revoke_tokens-keeps ts (revoke_token_with_ttl up now t.jti _ s)
        (rw tokens-revoke (revoked_in-mark_revoked now t.jti k s.tokens h))

  revoke_tokens-hits :
      (ts : List RevokedToken) (s : SessionStore) (t : RevokedToken)
      → Memᴰ t ts
      → t.jti ≡ k
      → is_some (find_token k s.tokens) ≡ true
      → revoked_in k (revoke_tokens up now ts s).tokens ≡ true
  unfolding revoke_tokens
  revoke_tokens-hits [] s t m same known = elim m [ ]
  revoke_tokens-hits (x ∷ ts) s t (Memᴰ.head e) same known =
      revoke_tokens-keeps ts (revoke_token_with_ttl up now x.jti _ s) (
        let own : x.jti ≡ k = cc in
        rw tokens-revoke (rw own (mark_revoked_own now k s.tokens known)))
  revoke_tokens-hits (x ∷ ts) s t (Memᴰ.tail m) same known =
      revoke_tokens-hits ts (revoke_token_with_ttl up now x.jti _ s) t m same
        (rw tokens-revoke (known-mark_revoked now x.jti k s.tokens known))

  revoke_session-keeps :
      (id : ℕ) (s : SessionStore)
      → revoked_in k s.tokens ≡ true
      → revoked_in k (revoke_session_with_tokens up now id s).tokens ≡ true
  unfolding revoke_session_with_tokens
  revoke_session-keeps id s h = revoke_tokens-keeps (keep (live_in id) s.tokens) s h

  revoke_sessions-keeps :
      (xs : List Session) (s : SessionStore)
      → revoked_in k s.tokens ≡ true
      → revoked_in k (revoke_sessions up now xs s).tokens ≡ true
  unfolding revoke_sessions
  revoke_sessions-keeps [] s h = h
  revoke_sessions-keeps (x ∷ xs) s h =
      revoke_sessions-keeps xs (revoke_session_with_tokens up now x.id s)
        (revoke_session-keeps x.id s h)

keep-mem :
    (p : RevokedToken → Bool) (ts : List RevokedToken) (t : RevokedToken)
    → Memᴰ t ts
    → p t ≡ true
    → Memᴰ t (keep p ts)
keep-mem p [] t m h = elim m [ ]
keep-mem p (x ∷ ts) t (Memᴰ.head e) h = let px : p x ≡ true = rw (sym e) h in rw px (Memᴰ.head e)
keep-mem p (x ∷ ts) t (Memᴰ.tail m) h =
    if_both (λ ys. Memᴰ t ys) (p x) (x ∷ keep p ts) (keep p ts)
      (λ _. Memᴰ.tail (keep-mem p ts t m h)) (λ _. keep-mem p ts t m h)

already :
    (k : String) (ts : List RevokedToken) (t : RevokedToken)
    → find_token k ts ≡ some t
    → is_some t.revoked_at ≡ true
    → revoked_in k ts ≡ true
unfolding revoked_in
already k ts t found old = rw (found, revoked_in) old

live_own :
    (user : ℕ) (t : RevokedToken)
    → t.user ≡ user
    → is_some t.revoked_at ≡ false
    → live_of user t ≡ true
live_own user t own live = ground arith

-- Signing a user out everywhere revokes each of the user's tokens for good: whenever it is asked
-- about later, and whether or not Redis answered then or answers now.
pub revoke_and_blacklist_all_for_user-is_token_revoked :
    (up : Bool) (now user : ℕ) (s : SessionStore) (k : String) (t : RevokedToken) (up' : Bool)
    (now' : ℕ)
    → find_token k s.tokens ≡ some t
    → t.user ≡ user
    → is_token_revoked up' now' k (revoke_and_blacklist_all_for_user up now user s) ≡ true
unfolding is_token_revoked revoke_and_blacklist_all_for_user revoke_all_user_sessions
revoke_and_blacklist_all_for_user-is_token_revoked up now user s k t up' now' found own =
    let ts = keep (live_of user) s.tokens in
    let s' = revoke_tokens up now ts s in
    let (m, named) = find_token-mem k s.tokens t found in
    let known : is_some (find_token k s.tokens) ≡ true = rw found refl in
    let first : revoked_in k s'.tokens ≡ true = elim (Bool-cases (is_some t.revoked_at)) [
      | inl old ↦ revoke_tokens-keeps up now k ts s (already k s.tokens t found old)
      | inr live ↦
          revoke_tokens-hits up now k ts s t
            (keep-mem (live_of user) s.tokens t m (live_own user t own live)) named known
    ] in
    let revoked = revoke_sessions-keeps up now k (keep (open_of user) s'.sessions) s' first in
    if_both (λ b. b ≡ true) _ true _ (λ _. refl) (λ _. revoked)
