-- ===== src/Auth/Passwords/Reset.antt =====
-- What a reset leaves behind.
use mathlib.Core.Path.{subst}
use mytrackr_backend.Prelude.{◌≡◌, refl, ap, Option, some, String, Bool-cases, inl, inr}
use mytrackr_backend.Prelude.Codes.{Codes}
use mytrackr_backend.Auth.Sessions.{RevokedToken, find_token}
use mytrackr_backend.Auth.Sessions.Revoked.{revoke_and_blacklist_all_for_user-is_token_revoked}
use mytrackr_backend.Auth.Accounts.{
  User, Accounts, refresh, TokenPayload, Outside, AuthError, token_revoked, invalid_token, Answer,
  ok, thrown, find_user, change, has_email,
}
use mytrackr_backend.Auth.Accounts.Answers.{find_user-update}
use mytrackr_backend.Auth.Refresh.{refresh_token}
use mytrackr_backend.Auth.Refresh.Rotation.{refused_as_revoked}
use mytrackr_backend.Auth.Passwords.{
  sign_out_everywhere, accepts_code, set_new_password, reset_password,
}

not_ok : {A : Type 0} {e : AuthError} {a : A} → ◌≡◌ {A = Answer A} (thrown e) (ok a) → ⊥
not_ok h = cc

abbrev after : Outside → Codes → User → Accounts → Accounts
after o password u a = sign_out_everywhere o u.id (change u.id (set_new_password o password) a)

reset_password_ok :
    (o : Outside) (email code password : Codes) (u : User) (a b : Accounts)
    → find_user (has_email email) a.users ≡ some u
    → reset_password o email code password a ≡ (ok tt, b)
    → after o password u a ≡ b
unfolding reset_password
reset_password_ok o email code password u a b found h = elim (Bool-cases (accepts_code o code u)) [
  | inl good ↦ ap (λ p. p.1) (rw good at (rw (found, reset_password) at h))
  | inr bad ↦ absurd (not_ok (ap (λ p. p.0) (rw bad at (rw (found, reset_password) at h))))
]

-- Right after a reset has been answered, with no other request in between, every code is refused at
-- the address, and each refresh token that was stored for the user is refused as revoked; neither
-- changes anything.
pub reset_password_once :
    (o later : Outside) (email code password : Codes) (again another : Codes) (a b : Accounts)
    (u : User) (token : String) (device : Option String) (p : TokenPayload) (j : String)
    (row : RevokedToken)
    → find_user (has_email email) a.users ≡ some u
    → reset_password o email code password a ≡ (ok tt, b)
    → later.verify_refresh token ≡ some p
    → p.type ≡ refresh
    → p.jti ≡ some j
    → find_token j a.sessions.tokens ≡ some row
    → row.user ≡ u.id
    → (reset_password later email again another b ≡ (thrown invalid_token, b))
      × (refresh_token later token device b ≡ (thrown token_revoked, b))
unfolding reset_password
reset_password_once o later email code password again another a b u token device p j row found h
      verified type named known own =
    let e = reset_password_ok o email code password u a b found h in
    let gone =
      find_user-update (has_email email) (set_new_password o password) u.id a.users u (λ x. refl)
        refl found in
    subst
      (λ (c : Accounts).
        (reset_password later email again another c ≡ (thrown invalid_token, c))
        × (refresh_token later token device c ≡ (thrown token_revoked, c)))
      e
      (
        rw (gone, reset_password) refl,
        refused_as_revoked later token device (after o password u a) p j verified type named (
            revoke_and_blacklist_all_for_user-is_token_revoked o.up o.now u.id a.sessions j row
              later.up later.now known own),
      )
