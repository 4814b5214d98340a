-- ===== src/Auth/Mfa/Backup.antt =====
-- Settings that are updated are found, and a token of a known user is checked.

use mytrackr_backend.Prelude.{
  ℕ, ◌≡◌, refl, Bool, true, Option, some, String, [], ◌∷◌, arith, if◌then◌else◌,
}
use mytrackr_backend.Prelude.Codes.{Codes}
use mytrackr_backend.Auth.Mfa.{
  SecuritySettings, User, mfa_not_enabled, failed, done, after_otp, Users, find_user,
  update_settings, with_user, verify_token, use_backup_code, is_off,
}

pub find-update_settings :
    (k : ℕ) (s : SecuritySettings) (u : User) (us : Users)
    → find_user k us ≡ some u
    → find_user k (update_settings u.id s us) ≡ some (record u { security_settings = s })
unfolding find_user update_settings
find-update_settings k s u [] h = ground arith
find-update_settings k s u (x ∷ us) h = let ih = find-update_settings k s u us in ground arith

-- What a check does where its user is there
pub verify_token_known :
    (otp_verify : Option String → Codes → Option Bool) (upper : Codes → Codes) (token : Codes)
    (k : ℕ) (us : Users) (u : User)
    → find_user k us ≡ some u
    → verify_token otp_verify upper token k us ≡ (
        if is_off u
        then failed mfa_not_enabled
        else after_otp
            (otp_verify u.security_settings.mfa_secret token)
            (λ valid. if valid then done true us else use_backup_code upper token u us))
unfolding verify_token with_user
verify_token_known otp_verify upper token k us u e = rw (e, with_user) refl
