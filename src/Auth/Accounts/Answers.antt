-- ===== src/Auth/Accounts/Answers.antt =====
-- What one login answers, and what it leaves.
use mytrackr_backend.Prelude.{
  ℕ, ◌≡◌, refl, ◌∙◌, ap, Bool, true, false, Option, none, some, String, List, [], ◌∷◌, ◌==◌,
  ==_refl, is_some, or_else, Bool-cases, inl, inr, if_both, if◌then◌else◌,
}
use mytrackr_backend.Prelude.Codes.{Codes}
use mytrackr_backend.Auth.Accounts.{
  User, Accounts, Outside, invalid_credentials, account_locked, thrown, find_user, update_user,
  has_email, has_id,
}
use mytrackr_backend.Auth.Accounts.Login.{
  increment_failed_attempts, is_locked, has_role, LoginOptions, user_login, refusal,
  validate_and_login_user, login_with_email,
}

-- A row that is found is found changed after a change of its id, if the change keeps what the search
-- looks at.
pub find_user-update :
    (p : User → Bool) (f : User → User) (k : ℕ) (us : List User) (u : User)
    → ((x : User) → p (f x) ≡ p x)
    → u.id ≡ k
    → find_user p us ≡ some u
    → find_user p (update_user k f us) ≡ some (f u)
unfolding find_user update_user
find_user-update p f k [] u keeps e h = cc
find_user-update p f k (x ∷ xs) u keeps e h = elim (Bool-cases (p x)) [
  | inl found ↦
      let e' : some x ≡ some u = rw found at h in
      let same : x ≡ u = cc in
      let here : (x.id == k) ≡ true = rw same (rw e (==_refl k)) in
      rw here (rw (keeps x ∙ found) (ap some (ap f same)))
  | inr other ↦
      let missed : p (if x.id == k then f x else x) ≡ false =
        if_both (λ y. p y ≡ false) (x.id == k) (f x) x (λ _. keeps x ∙ other) (λ _. other) in
      rw missed (find_user-update p f k xs u keeps e (rw other at h))
]

-- The user of the address, and of the id, is this row.
pub record IsRow (email : Codes) (u : User) (a : Accounts) : Type 0 where
  pub by_email : find_user (has_email email) a.users ≡ some u
  pub by_id : find_user (has_id u.id) a.users ≡ some u

-- What a user needs to be asked for a password, and to have the role of a user already
pub record IsReady (u : User) : Type 0 where
  pub password : is_some u.password_hash ≡ true
  pub verified : u.is_verified ≡ true
  pub active : u.is_active ≡ true
  pub role : has_role "User" u ≡ true

-- An attempt with a wrong password
abbrev pub IsWrong : User → Codes → Outside → Type 0
IsWrong u password o = o.verify_password password (or_else u.password_hash "") ≡ false

pub refusal_locked :
    (q : LoginOptions) (now : ℕ) (u : User)
    → is_locked now u ≡ true
    → refusal q now u ≡ some account_locked
unfolding refusal
refusal_locked q now u h = rw h refl

pub open_to_login :
    (now : ℕ) (u : User) → IsReady u → is_locked now u ≡ false → refusal user_login now u ≡ none
unfolding refusal
open_to_login now u r h = rw h (rw r.password (rw r.verified (rw r.active refl)))

-- While a user is locked, every login is refused and changes nothing.
pub login_locked :
    (o : Outside) (email password : Codes) (device : Option String) (u : User) (a : Accounts)
    → IsRow email u a
    → is_locked o.now u ≡ true
    → login_with_email o email password device a ≡ (thrown account_locked, a)
unfolding login_with_email validate_and_login_user
login_locked o email password device u a row h =
    rw (row.by_email, validate_and_login_user) (rw (refusal_locked user_login o.now u h) refl)

-- A wrong password that is looked at counts as a failure.
pub login_wrong :
    (o : Outside) (email password : Codes) (device : Option String) (u : User) (a : Accounts)
    → IsRow email u a
    → IsReady u
    → is_locked o.now u ≡ false
    → IsWrong u password o
    → login_with_email o email password device a
      ≡ (thrown invalid_credentials, increment_failed_attempts o.now u a)
unfolding login_with_email validate_and_login_user
login_wrong o email password device u a row ready h wrong =
    rw (row.by_email, validate_and_login_user)
      (rw (open_to_login o.now u ready h) (rw ready.role (rw wrong refl)))
