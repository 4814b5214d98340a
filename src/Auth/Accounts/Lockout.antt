-- ===== src/Auth/Accounts/Lockout.antt =====
-- Five wrong passwords lock a user out.
use mathlib.Core.Path.{subst}
use mytrackr_backend.Prelude.{
  ℕ, ◌+◌, ◌≤◌, ◌<◌, ◌≡◌, refl, ◌∙◌, ap, Bool, true, false, Option, some, String, List, [], ◌∷◌,
  arith, leb, length, or_else, All, Bool-cases, inl, inr, ◌⊎◌,
}
use mytrackr_backend.Prelude.Codes.{Codes}
use mytrackr_backend.Auth.Accounts.{
  User, Accounts, Outside, account_locked, thrown, has_email, has_id,
}
use mytrackr_backend.Auth.Accounts.Login.{
  max_attempts, lockout_period, add_failure, increment_failed_attempts, is_locked, login_with_email,
}
use mytrackr_backend.Auth.Accounts.Answers.{
  find_user-update, IsRow, IsReady, login_locked, login_wrong,
}

-- Attempts to log in at one address, one after the other
pub record Attempt : Type 0 where
  pub outside : Outside
  pub password : Codes
  pub device : Option String

unfoldable pub attempt_all : (email : Codes) → List Attempt → Accounts → Accounts
attempt_all email [] a = a
attempt_all email (t ∷ ts) a =
    attempt_all email ts (login_with_email t.outside email t.password t.device a).1

-- Locked until fifteen minutes after an instant at least
abbrev Locked : (from : ℕ) → User → Type 0
Locked from u = (t : ℕ) × (u.lockout_until ≡ some t) × (from + lockout_period ≤ t)

-- Not locked at an instant, nor later
abbrev pub IsOpen : (from : ℕ) → User → Type 0
IsOpen from u = (now : ℕ) → from ≤ now → is_locked now u ≡ false

-- After n failures: locked, or open with as many counted, fewer than five where there were any
abbrev Failed : (from n : ℕ) → User → Type 0
Failed from n u =
    Locked from u
    ⊎ (IsOpen from u
        × (n ≤ u.failed_login_attempts)
        × ((n ≡ 0) ⊎ (u.failed_login_attempts < max_attempts)))

failed_again : (now : ℕ) → User → User
failed_again now u = add_failure now u u

failed_again-Failed :
    (from n now : ℕ) (u : User)
    → from ≤ now
    → Failed from n u
    → Failed from (n + 1) (failed_again now u)
unfolding failed_again
failed_again-Failed from n now u later h =
    elim (Bool-cases (leb max_attempts (u.failed_login_attempts + 1))) [
      | inl many ↦ inl (now + lockout_period, rw many refl, omega arith)
      | inr few ↦ elim h [
        | inl (t, at, far) ↦ inl (t, rw few at, far)
        | inr (open_u, least, small) ↦
            inr ((λ when after. rw few (open_u when after)), omega arith, inr (ground arith))
      ]
    ]

-- What stands after n wrong attempts
record Tried (from n : ℕ) (email : Codes) (hash : String) (u : User) (a : Accounts) : Type 0 where
  row : IsRow email u a
  ready : IsReady u
  hashed : or_else u.password_hash "" ≡ hash
  failures : Failed from n u

failed_again-Tried :
    (from n now : ℕ) (email : Codes) (hash : String) (u : User) (a : Accounts)
    → from ≤ now
    → Tried from n email hash u a
    → Tried from (n + 1) email hash (failed_again now u) (increment_failed_attempts now u a)
unfolding failed_again increment_failed_attempts
failed_again-Tried from n now email hash u a later t = record {
  row = record {
    by_email =
        find_user-update (has_email email) (add_failure now u) u.id a.users u (λ x. refl) refl
          t.row.by_email;
    by_id =
        find_user-update (has_id u.id) (add_failure now u) u.id a.users u (λ x. refl) refl
          t.row.by_id;
  };
  ready = record {
    password = t.ready.password;
    verified = t.ready.verified;
    active = t.ready.active;
    role = t.ready.role;
  };
  hashed = t.hashed;
  failures = failed_again-Failed from n now u later t.failures;
}

-- An attempt after an instant, with a password that does not fit the hash
abbrev pub IsWrongAttempt : (from : ℕ) → (hash : String) → Attempt → Type 0
IsWrongAttempt from hash t =
    (from ≤ t.outside.now) × (t.outside.verify_password t.password hash ≡ false)

clash : {b : Bool} → b ≡ true → b ≡ false → ⊥
clash h k = cc

-- An attempt that is refused as locked leaves the user locked.
locked-Failed :
    (from n now : ℕ) (u : User)
    → from ≤ now
    → is_locked now u ≡ true
    → Failed from n u
    → Failed from (n + 1) u
locked-Failed from n now u later locked (inl l) = inl l
locked-Failed from n now u later locked (inr (open_u, least, small)) =
    absurd (clash locked (open_u now later))

module _ (from : ℕ) (email : Codes) (hash : String) where
  abbrev Standing : ℕ → Accounts → Type 0
  Standing n a = (u : User) × Tried from n email hash u a

  attempt-Standing :
      (n : ℕ) (t : Attempt) (a : Accounts)
      → IsWrongAttempt from hash t
      → Standing n a
      → Standing (n + 1) (login_with_email t.outside email t.password t.device a).1
  attempt-Standing n t a (later, wrong) (u, s) = elim (Bool-cases (is_locked t.outside.now u)) [
    | inl locked ↦ rw (login_locked t.outside email t.password t.device u a s.row locked) (
      u,
      record {
        row = s.row;
        ready = s.ready;
        hashed = s.hashed;
        failures = locked-Failed from n t.outside.now u later locked s.failures;
      },
    )
    | inr open_now ↦
        rw
          (login_wrong t.outside email t.password t.device u a s.row s.ready open_now
            (ap (t.outside.verify_password t.password) s.hashed ∙ wrong))
          (
            failed_again t.outside.now u,
            failed_again-Tried from n t.outside.now email hash u a later s,
          )
  ]

  attempt_all-Standing :
      (n : ℕ) (ts : List Attempt) (a : Accounts)
      → All (IsWrongAttempt from hash) ts
      → Standing n a
      → Standing (n + length ts) (attempt_all email ts a)
  unfolding attempt_all
  attempt_all-Standing n [] a wrong s = subst (λ (m : ℕ). Standing m a) (omega arith) s
  attempt_all-Standing n (t ∷ ts) a (first, rest) s =
      let b = (login_with_email t.outside email t.password t.device a).1 in
      subst (λ (m : ℕ). Standing m (attempt_all email ts b)) (omega arith)
        (attempt_all-Standing (n + 1) ts b rest (attempt-Standing n t a first s))

five_failures :
    (from n now : ℕ) (u : User)
    → 5 ≤ n
    → now < from + lockout_period
    → Failed from n u
    → is_locked now u ≡ true
five_failures from n now u many soon (inl (t, at, far)) = rw at (ground arith)
five_failures from n now u many soon (inr (open_u, least, inl none_yet)) = absurd (omega arith)
five_failures from n now u many soon (inr (open_u, least, inr few)) = absurd (omega arith)

-- After five attempts or more with wrong passwords, from an instant on at which the user is not
-- locked, every login at the address within fifteen minutes of that instant is refused as locked,
-- with the right password as well, and changes nothing. The user has a password and the role of a
-- user, is verified and active, and is the first of the address and of the id.
pub login_with_email_locks :
    (from : ℕ) (email password : Codes) (attempts : List Attempt) (o : Outside)
    (device : Option String) (u : User) (a : Accounts)
    → IsRow email u a
    → IsReady u
    → IsOpen from u
    → All (IsWrongAttempt from (or_else u.password_hash "")) attempts
    → 5 ≤ length attempts
    → o.now < from + lockout_period
    → login_with_email o email password device (attempt_all email attempts a)
      ≡ (thrown account_locked, attempt_all email attempts a)
login_with_email_locks from email password attempts o device u a row ready open_u wrong many soon =
    let (v, s) = attempt_all-Standing from email (or_else u.password_hash "") 0 attempts a wrong (
      u,
      record {
        row = row;
        ready = ready;
        hashed = refl;
        failures = inr (open_u, omega arith, inl refl);
      },
    ) in
    login_locked o email password device v (attempt_all email attempts a) s.row
      (five_failures from (0 + length attempts) o.now v (omega arith) soon s.failures)
