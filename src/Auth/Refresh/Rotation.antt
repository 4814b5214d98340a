-- ===== src/Auth/Refresh/Rotation.antt =====
-- A refresh token is exchanged once.
use mathlib.Core.Path.{subst}
use mytrackr_backend.Prelude.{
  ℕ, ◌≡◌, refl, ap, Bool, true, false, not, Option, none, some, String, List, [], ◌∷◌, ◌++◌, arith,
  is_some, if_both, if◌then◌else◌,
}
use mytrackr_backend.Auth.Sessions.{
  RevokedToken, Session, SessionStore, find_token, store_token_id, revoke_token, find_open,
  access_ttl, revoked_in, is_token_revoked, is_blacklisted,
}
use mytrackr_backend.Auth.Sessions.Revoked.{mark_revoked_own, tokens-revoke}
use mytrackr_backend.Auth.Accounts.{
  User, Accounts, refresh, TokenPayload, Outside, AuthError, token_revoked, Answer, ok, thrown,
  Tokens, find_user, has_id, store_access, token_exists, generate_tokens,
}
use mytrackr_backend.Auth.Refresh.{
  is_refresh, is_revoked, mismatch, outdated, revoke_own, with_sessions, refresh_session,
  refresh_user, refresh_payload, refresh_token,
}

revoked_in-append :
    (j : String) (ts : List RevokedToken) (row : RevokedToken)
    → revoked_in j ts ≡ true
    → revoked_in j (ts ++ row ∷ []) ≡ true
unfolding revoked_in find_token
revoked_in-append j [] row h = cc
revoked_in-append j (t ∷ ts) row h = ground (arith, revoked_in-append j ts row)

-- What holds of the sessions that are left, where there are any
abbrev IfSome : (SessionStore → Type 0) → Option SessionStore → Type 0
IfSome P none = Unit
IfSome P (some s) = P s

abbrev Revoked : String → SessionStore → Type 0
Revoked j s = revoked_in j s.tokens ≡ true

store_token_id-keeps :
    (j k : String) (user : ℕ) (session : Option ℕ) (s : SessionStore)
    → Revoked j s
    → IfSome (Revoked j) (store_token_id k user session s)
unfolding store_token_id
store_token_id-keeps j k user session s h =
    if_both (IfSome (Revoked j)) (is_some (find_token k s.tokens)) _ _ (λ _. tt)
      (λ _. revoked_in-append j s.tokens _ h)

-- Where a request answers with tokens, the token of this id is revoked then.
abbrev Exchanged : String → Answer Tokens × Accounts → Type 0
Exchanged j r = (t : Tokens) (a : Accounts) → r ≡ (ok t, a) → Revoked j a.sessions

not_ok : {A : Type 0} {e : AuthError} {a : A} → ◌≡◌ {A = Answer A} (thrown e) (ok a) → ⊥
not_ok h = cc

refused : (j : String) (e : AuthError) (a : Accounts) → Exchanged j (thrown e, a)
refused j e a t b h = absurd (not_ok (ap (λ p. p.0) h))

stored-Exchanged :
    (j : String) (r : Option SessionStore) (tokens : Tokens) (users : List User) (a : Accounts)
    → IfSome (Revoked j) r
    → Exchanged j (elim r [
      | none ↦ (thrown token_exists, a)
      | some s ↦ (ok tokens, record { users = users; sessions = s })
    ])
stored-Exchanged j none tokens users a h t b e = absurd (not_ok (ap (λ p. p.0) e))
stored-Exchanged j (some s) tokens users a h t b e =
    subst (λ (x : Accounts). Revoked j x.sessions) (ap (λ p. p.1) e) h

store_first-Exchanged :
    (j : String) (o : Outside) (user session : ℕ) (tokens : Tokens) (a : Accounts)
    (r : Option SessionStore)
    → IfSome (Revoked j) r
    → Exchanged j (elim r [
      | none ↦ (thrown token_exists, a)
      | some s ↦ store_access o user session tokens a.users s
    ])
store_first-Exchanged j o user session tokens a none h = refused j token_exists a
store_first-Exchanged j o user session tokens a (some s) h =
    stored-Exchanged j (store_token_id o.access_jti user (some session) s) tokens a.users
      (record { users = a.users; sessions = s })
      (store_token_id-keeps j o.access_jti user (some session) s h)

generate_tokens-Exchanged :
    (j : String) (o : Outside) (user session : ℕ) (device : Option String) (a : Accounts)
    → Revoked j a.sessions
    → Exchanged j (generate_tokens o user session device a)
unfolding generate_tokens
generate_tokens-Exchanged j o user session device a h =
    store_first-Exchanged j o user session _ a
      (store_token_id o.refresh_jti user (some session) a.sessions)
      (store_token_id-keeps j o.refresh_jti user (some session) a.sessions h)

-- The token has a row.
abbrev Known : String → SessionStore → Type 0
Known j s = is_some (find_token j s.tokens) ≡ true

some_eq : (j k : String) → some j ≡ some k → j ≡ k
some_eq j k h = cc

not_none : (k : String) → none ≡ some k → ⊥
not_none k h = cc

revoke_own-Revoked :
    (o : Outside) (jti : Option String) (j : String) (s : SessionStore)
    → jti ≡ some j
    → Known j s
    → Revoked j (revoke_own o jti s)
unfolding revoke_token
revoke_own-Revoked o none j s e known = absurd (not_none j e)
revoke_own-Revoked o (some k) j s e known =
    let same : k ≡ j = some_eq k j e in
    rw same (rw (tokens-revoke o.up o.now j access_ttl s) (mark_revoked_own o.now j s.tokens known))

module _ (o : Outside) (device : Option String) (p : TokenPayload) (j : String)
    (named : p.jti ≡ some j) where
  refresh_session-Exchanged :
      (u : User) (x : Option Session) (a : Accounts)
      → Known j a.sessions
      → Exchanged j (refresh_session o device p u x a)
  refresh_session-Exchanged u none a known = refused j _ a
  refresh_session-Exchanged u (some x) a known =
      generate_tokens-Exchanged j o u.id x.id device
        (with_sessions (revoke_own o p.jti a.sessions) a)
        (revoke_own-Revoked o p.jti j a.sessions named known)

  refresh_user-Exchanged :
      (u : Option User) (a : Accounts)
      → Known j a.sessions
      → Exchanged j (refresh_user o device p u a)
  refresh_user-Exchanged none a known = refused j _ a
  refresh_user-Exchanged (some u) a known =
      if_both (Exchanged j) (not u.is_active) _ _ (λ _. refused j _ a)
        (λ _.
          if_both (Exchanged j) (outdated u.last_password_change p.iat) _ _ (λ _. refused j _ _)
            (λ _. refresh_session-Exchanged u (find_open p.session a.sessions.sessions) a known))

  refresh_payload-Exchanged :
      (a : Accounts) → Known j a.sessions → Exchanged j (refresh_payload o device (some p) a)
  refresh_payload-Exchanged a known =
      if_both (Exchanged j) _ _ _ (λ _. refused j _ a)
        (λ _.
          if_both (Exchanged j) (is_revoked o p.jti a.sessions) _ _ (λ _. refused j _ a)
            (λ _.
              if_both (Exchanged j) (mismatch device p.device) _ _ (λ _. refused j _ a)
                (λ _. refresh_user-Exchanged (find_user (has_id p.sub) a.users) a known)))

listed : (b c : Bool) → c ≡ true → (if b then true else c) ≡ true
listed true c h = refl
listed false c h = h

pub refused_as_revoked :
    (o : Outside) (token : String) (device : Option String) (a : Accounts) (p : TokenPayload)
    (j : String)
    → o.verify_refresh token ≡ some p
    → p.type ≡ refresh
    → p.jti ≡ some j
    → is_token_revoked o.up o.now j a.sessions ≡ true
    → refresh_token o token device a ≡ (thrown token_revoked, a)
unfolding refresh_token
refused_as_revoked o token device a p j verified type named h =
    let kind : is_refresh p.type ≡ true = ap is_refresh type in
    let revoked : is_revoked o p.jti a.sessions ≡ true = rw named h in
    rw (verified, refresh_token) (rw kind (rw revoked refl))

exchange_refused :
    (o : Outside) (j : String) (s : SessionStore)
    → Revoked j s
    → is_token_revoked o.up o.now j s ≡ true
unfolding is_token_revoked
exchange_refused o j s h = listed (is_blacklisted o.up o.now j s) (revoked_in j s.tokens) h

-- A refresh token whose id is stored is exchanged once: after it has been answered with new tokens,
-- every refresh token of the same id is refused as revoked and nothing changes, at any time,
-- from any device and whether or not Redis answers.
pub refresh_token_once :
    (o later : Outside) (token again : String) (device device' : Option String) (a b : Accounts)
    (t : Tokens) (p q : TokenPayload) (j : String)
    → o.verify_refresh token ≡ some p
    → p.jti ≡ some j
    → is_some (find_token j a.sessions.tokens) ≡ true
    → refresh_token o token device a ≡ (ok t, b)
    → later.verify_refresh again ≡ some q
    → q.type ≡ refresh
    → q.jti ≡ some j
    → refresh_token later again device' b ≡ (thrown token_revoked, b)
unfolding refresh_token
refresh_token_once o later token again device device' a b t p q j verified named known h verified'
      type named' =
    refused_as_revoked later again device' b q j verified' type named' (
      exchange_refused later j b.sessions (
        refresh_payload-Exchanged o device p j named a known t b
          (rw (verified, refresh_token) at h)))
