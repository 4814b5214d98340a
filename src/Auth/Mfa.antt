-- ===== src/Auth/Mfa.antt =====
-- src/auth/services/mfa.service.ts: one-time passwords and backup codes. The checks of otplib and of
-- the password hash are parameters, and so are the draws of Math.random. The check of a one-time
-- password is none where the library throws.
pub mod Backup
pub mod Issued
mod Tests
use mytrackr_backend.Prelude.{
  ℕ, zero, suc, ◌+◌, ◌*◌, ◌%◌, Bool, true, false, ◌&&◌, ◌||◌, not, Option, none, some, String, List,
  [], ◌∷◌, ◌==◌, ltb, is_some, or_else, if◌then◌else◌,
}
use mytrackr_backend.Prelude.Codes.{Codes, codes_eq}

-- The columns of a user that the service uses. Settings that are null have nothing set. A text that
-- is empty counts as missing.
pub record SecuritySettings : Type 0 where
  pub mfa_enabled : Bool
  pub mfa_method : Option String
  pub mfa_secret : Option String
  pub mfa_backup_codes : Option (List Codes)

pub record User : Type 0 where
  pub id : ℕ
  pub password_hash : Option String
  pub security_settings : SecuritySettings

pub data MfaError : Type 0 where
  user_not_found mfa_already_enabled mfa_not_initiated mfa_not_enabled : MfaError
  invalid_mfa_token password_required invalid_password otp_thrown : MfaError

-- A request throws with nothing written, or gives an answer and the users as they are then.
pub data Outcome (A : Type 0) : Type 0 where
  failed : MfaError → Outcome A
  done : A → List User → Outcome A

abbrev pub Users : Type 0
Users = List User

unfoldable pub find_user : ℕ → Users → Option User
find_user k [] = none
find_user k (u ∷ us) = let later = find_user k us in if u.id == k then some u else later

-- update(id, { securitySettings })
unfoldable pub update_settings : ℕ → SecuritySettings → Users → Users
update_settings k s [] = []
update_settings k s (u ∷ us) =
    let rest = update_settings k s us in
    if u.id == k then record u { security_settings = s } ∷ rest else u ∷ rest

-- findUserOrFail, and what follows
unfoldable pub with_user : {A : Type 0} → ℕ → Users → (User → Outcome A) → Outcome A
with_user k us next = elim (find_user k us) [ none ↦ failed user_not_found | some u ↦ next u ]

-- chars.charAt(n), of the 26 letters and the 10 digits
abbrev pub char_at : ℕ → ℕ
char_at n = if ltb n 26 then 65 + n else 22 + n

-- `draw` gives Math.floor(Math.random() * 36) for each call, which is less than 36.
unfoldable pub backup_code : (draw : ℕ → ℕ) → (from count : ℕ) → Codes
backup_code draw from zero = []
backup_code draw from (suc n) = char_at (draw from % 36) ∷ backup_code draw (from + 1) n

unfoldable pub backup_codes : (draw : ℕ → ℕ) → (from count : ℕ) → List Codes
backup_codes draw from zero = []
backup_codes draw from (suc n) = backup_code draw from 8 ∷ backup_codes draw (from + 8) n

-- generateBackupCodes
abbrev pub generate_backup_codes : (ℕ → ℕ) → List Codes
generate_backup_codes draw = backup_codes draw 0 10

-- indexOf and splice(index, 1): the rest without the first such code
unfoldable pub take_code : Codes → List Codes → Option (List Codes)
take_code c [] = none
take_code c (d ∷ ds) =
    let later : Option (List Codes) = elim (take_code c ds) [
      | none ↦ none
      | some rest ↦ some (d ∷ rest)
    ] in
    if codes_eq d c then some ds else later

-- generateSecret, with the secret of otplib; the answer is the secret
unfoldable pub generate_secret : (secret : String) → ℕ → Users → Outcome String
generate_secret secret k us = with_user k us (λ (u : User).
    if u.security_settings.mfa_enabled
    then failed mfa_already_enabled
    else done secret (
        update_settings u.id
          (record u.security_settings { mfa_secret = some secret; mfa_method = some "totp" }) us))

-- What follows the check of a one-time password, where it does not throw
abbrev pub after_otp : {A : Type 0} → Option Bool → (Bool → Outcome A) → Outcome A
after_otp none next = failed otp_thrown
after_otp (some valid) next = next valid

-- verifyAndEnable; the answer is the backup codes
unfoldable pub verify_and_enable :
    (otp_verify : Option String → Codes → Option Bool)
    → (draw : ℕ → ℕ) → (token : Codes) → ℕ
    → Users
    → Outcome (List Codes)
verify_and_enable otp_verify draw token k us = with_user k us (λ (u : User).
    if u.security_settings.mfa_enabled
    then failed mfa_already_enabled
    else if not (is_some u.security_settings.mfa_secret)
    then failed mfa_not_initiated
    else after_otp (otp_verify u.security_settings.mfa_secret token) (λ valid.
      if not valid
      then failed invalid_mfa_token
      else done (generate_backup_codes draw) (
          update_settings u.id
            (record u.security_settings {
              mfa_enabled = true;
              mfa_backup_codes = some (generate_backup_codes draw);
            })
            us)))

abbrev pub is_off : User → Bool
is_off u = not u.security_settings.mfa_enabled || not (is_some u.security_settings.mfa_secret)

abbrev pub codes_of : User → List Codes
codes_of u = or_else u.security_settings.mfa_backup_codes []

-- The branch for a token that is no one-time password
unfoldable pub use_backup_code : (upper : Codes → Codes) → Codes → User → Users → Outcome Bool
use_backup_code upper token u us = elim (take_code (upper token) (codes_of u)) [
  | none ↦ done false us
  | some rest ↦
      done true
        (update_settings u.id (record u.security_settings { mfa_backup_codes = some rest }) us)
]

-- verifyToken
unfoldable pub verify_token :
    (otp_verify : Option String → Codes → Option Bool)
    → (upper : Codes → Codes) → (token : Codes) → ℕ
    → Users
    → Outcome Bool
verify_token otp_verify upper token k us = with_user k us (λ (u : User).
    if is_off u
    then failed mfa_not_enabled
    else after_otp (otp_verify u.security_settings.mfa_secret token)
        (λ valid. if valid then done true us else use_backup_code upper token u us))

-- The password's check: the error, or none where it is right
abbrev pub password_error :
    (verify_password : String → String → Bool) → (password : String) → User → Option MfaError
password_error verify_password password u = elim u.password_hash [
  | none ↦ some password_required
  | some hash ↦ if verify_password password hash then none else some invalid_password
]

-- disable
unfoldable pub disable :
    (otp_verify : Option String → Codes → Option Bool)
    → (verify_password : String → String → Bool) → (token : Codes) → (password : String) → ℕ
    → Users
    → Outcome Bool
disable otp_verify verify_password token password k us = with_user k us (λ (u : User).
    if not u.security_settings.mfa_enabled
    then failed mfa_not_enabled
    else elim (password_error verify_password password u) [
      | some e ↦ failed e
      | none ↦ after_otp (otp_verify u.security_settings.mfa_secret token) (λ valid.
          if not valid
          then failed invalid_mfa_token
          else done true (
              update_settings u.id
                (record {
                  mfa_enabled = false;
                  mfa_method = none;
                  mfa_secret = none;
                  mfa_backup_codes = none;
                })
                us))
    ])

-- regenerateBackupCodes
unfoldable pub regenerate_backup_codes :
    (otp_verify : Option String → Codes → Option Bool)
    → (draw : ℕ → ℕ) → (token : Codes) → ℕ
    → Users
    → Outcome (List Codes)
regenerate_backup_codes otp_verify draw token k us = with_user k us (λ (u : User).
    if is_off u
    then failed mfa_not_enabled
    else after_otp (otp_verify u.security_settings.mfa_secret token) (λ valid.
      if not valid
      then failed invalid_mfa_token
      else done (generate_backup_codes draw) (
          update_settings u.id
            (record u.security_settings { mfa_backup_codes = some (generate_backup_codes draw) })
            us)))
