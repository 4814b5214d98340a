-- ===== src/Auth/Mfa/Tests.antt =====
-- Two-factor authentication of one user.
use mathlib.Core.List.{Memᴰ}
use mytrackr_backend.Prelude.{
  ◌≡◌, ◌≢◌, ◌==◌, if◌then◌else◌, refl, Bool, true, false, Option, none, some, String, [], ◌∷◌,
  length, All, arith,
}
use mytrackr_backend.Prelude.Codes.{Codes, codes, codes_eq}
use mytrackr_backend.Auth.Mfa.{
  User, Users, SecuritySettings, done, failed, otp_thrown, find_user, update_settings, with_user,
  verify_token, verify_and_enable, generate_backup_codes,
}
use mytrackr_backend.Auth.Mfa.Issued.{IsBackupCode, verify_and_enable_refuses}

abbrev user : SecuritySettings → User
user s = record { id = 1; password_hash = some "h"; security_settings = s }

abbrev pending : SecuritySettings
pending = record {
  mfa_enabled = false;
  mfa_method = some "totp";
  mfa_secret = some "S";
  mfa_backup_codes = none;
}

-- One password is right, others of six digits are wrong, and the rest throws.
abbrev otp : Option String → Codes → Option Bool
otp secret token = if length token == 6 then some (codes_eq token (codes "123456")) else none

abbrev same : Codes → Codes
same c = c

otp_throws : (secret : Option String) (c : Codes) → length c ≢ 6 → otp secret c ≡ none
otp_throws secret c h = ground arith

abbrev enabled_user : Users
enabled_user =
    user (record pending {
      mfa_enabled = true;
      mfa_backup_codes = some (generate_backup_codes (λ n. n));
    })
    ∷ []

enables :
    verify_and_enable otp (λ n. n) (codes "123456") 1 (user pending ∷ [])
    ≡ done (generate_backup_codes (λ n. n)) enabled_user
unfolding verify_and_enable with_user find_user update_settings codes_eq
enables = refl

verify_and_enable_refuses_example :
    (length (generate_backup_codes (λ n. n)) ≡ 10)
    × All IsBackupCode (generate_backup_codes (λ n. n))
    × ((c : Codes)
        → Memᴰ c (generate_backup_codes (λ n. n))
        → verify_token otp same c 1 enabled_user ≡ failed otp_thrown)
verify_and_enable_refuses_example =
    verify_and_enable_refuses otp same (λ n. n) (codes "123456") 1 (user pending ∷ []) enabled_user
      (generate_backup_codes (λ n. n)) otp_throws enables
