-- ===== src/Auth/Mfa/Issued.antt =====
-- The backup codes that are handed out.
use mathlib.Core.List.{Memᴰ}
use mathlib.Core.List.Memᴰ
use mytrackr_backend.Prelude.{
  ℕ, zero, suc, ◌+◌, ◌%◌, ◌≡◌, ◌≢◌, ◌∙◌, sym, ap, refl, inl, inr, Bool, true, ◌&&◌, ◌||◌, not,
  Option, none, some, String, List, [], ◌∷◌, leb, is_some, length, All, all, arith, Option-cases,
  if◌then◌else◌,
}
use mytrackr_backend.Prelude.Codes.{Codes}
use mytrackr_backend.Auth.Mfa.{
  User, failed, done, otp_thrown, after_otp, Users, find_user, update_settings, with_user, char_at,
  backup_code, backup_codes, generate_backup_codes, Outcome, verify_token, verify_and_enable,
  mfa_already_enabled, mfa_not_initiated, invalid_mfa_token, user_not_found,
}
use mytrackr_backend.Auth.Mfa.Backup.{find-update_settings, verify_token_known}

-- [A-Z0-9]
abbrev is_code_char : ℕ → Bool
is_code_char c = (leb 65 c && leb c 90) || (leb 48 c && leb c 57)

-- Eight such characters
abbrev pub IsBackupCode : Codes → Type 0
IsBackupCode c = (length c ≡ 8) × (all is_code_char c ≡ true)

char_at_lem : (n : ℕ) → is_code_char (char_at (n % 36)) ≡ true
char_at_lem n = ground arith

backup_code_lem :
    (draw : ℕ → ℕ) (from n : ℕ)
    → (length (backup_code draw from n) ≡ n) × (all is_code_char (backup_code draw from n) ≡ true)
unfolding backup_code
backup_code_lem draw from zero = (refl, refl)
backup_code_lem draw from (suc n) =
    let (len, good) = backup_code_lem draw (from + 1) n in
    (omega (arith, len), let first = char_at_lem (draw from) in ground arith)

backup_codes_lem :
    (draw : ℕ → ℕ) (from n : ℕ)
    → (length (backup_codes draw from n) ≡ n) × All IsBackupCode (backup_codes draw from n)
unfolding backup_codes
backup_codes_lem draw from zero = (refl, tt)
backup_codes_lem draw from (suc n) =
    let (len, good) = backup_codes_lem draw (from + 8) n in
    (omega (arith, len), (backup_code_lem draw from 8, good))

All-mem : (P : Codes → Type 0) (c : Codes) (ds : List Codes) → All P ds → Memᴰ c ds → P c
All-mem P c [] h m = elim (Memᴰ.not-nil m) [ ]
All-mem P c (d ∷ ds) (h, hs) m = elim (Memᴰ.cases_cons m) [
  | inl e ↦ rw e h
  | inr there ↦ All-mem P c ds hs there
]

-- The user after the code is enabled
abbrev enabled : (ℕ → ℕ) → User → User
enabled draw u = record u {
  security_settings = record u.security_settings {
    mfa_enabled = true;
    mfa_backup_codes = some (generate_backup_codes draw);
  };
}

verify_and_enable_known :
    (otp_verify : Option String → Codes → Option Bool) (draw : ℕ → ℕ) (token : Codes) (k : ℕ)
    (us : Users) (u : User)
    → find_user k us ≡ some u
    → verify_and_enable otp_verify draw token k us ≡ (
        if u.security_settings.mfa_enabled
        then failed mfa_already_enabled
        else if not (is_some u.security_settings.mfa_secret)
        then failed mfa_not_initiated
        else after_otp (otp_verify u.security_settings.mfa_secret token) (λ valid.
          if not valid
          then failed invalid_mfa_token
          else done
              (generate_backup_codes draw)
              (update_settings u.id (enabled draw u).security_settings us)))
unfolding verify_and_enable with_user
verify_and_enable_known otp_verify draw token k us u e = rw (e, with_user) refl

verify_and_enable_unknown :
    (otp_verify : Option String → Codes → Option Bool) (draw : ℕ → ℕ) (token : Codes) (k : ℕ)
    (us : Users)
    → find_user k us ≡ none
    → verify_and_enable otp_verify draw token k us ≡ failed user_not_found
unfolding verify_and_enable with_user
verify_and_enable_unknown otp_verify draw token k us e = rw (e, with_user) refl

enabled_parts :
    (draw : ℕ → ℕ) (u : User) (us us' : Users) (issued : List Codes) (check : Option Bool)
    → ◌≡◌ {A = Outcome (List Codes)}
        (if u.security_settings.mfa_enabled
          then failed mfa_already_enabled
          else if not (is_some u.security_settings.mfa_secret)
          then failed mfa_not_initiated
          else after_otp check (λ valid.
            if not valid
            then failed invalid_mfa_token
            else done
                (generate_backup_codes draw)
                (update_settings u.id (enabled draw u).security_settings us)))
        (done issued us')
    → (issued ≡ generate_backup_codes draw)
      × (is_some u.security_settings.mfa_secret ≡ true)
      × (update_settings u.id (enabled draw u).security_settings us ≡ us')
enabled_parts draw u us us' issued none h = let bad : ⊥ = ground arith in absurd bad
enabled_parts draw u us us' issued (some valid) h = (ground arith, ground arith, ground arith)

verify_and_enable_done :
    (otp_verify : Option String → Codes → Option Bool) (draw : ℕ → ℕ) (token : Codes) (k : ℕ)
    (us us' : Users) (issued : List Codes)
    → verify_and_enable otp_verify draw token k us ≡ done issued us'
    → (u : User) × (issued ≡ generate_backup_codes draw)
      × (is_some u.security_settings.mfa_secret ≡ true)
      × (find_user k us' ≡ some (enabled draw u))
verify_and_enable_done otp_verify draw token k us us' issued h =
    elim (Option-cases (find_user k us)) [
      | inl e ↦
          let unknown = verify_and_enable_unknown otp_verify draw token k us e in
          let bad : ⊥ = cc in elim bad [ ]
      | inr (u, e) ↦
          let known = sym (verify_and_enable_known otp_verify draw token k us u e) ∙ h in
          let (issued_eq, secret, same) =
            enabled_parts draw u us us' issued (otp_verify u.security_settings.mfa_secret token)
              known in
          (
            u,
            issued_eq,
            secret,
            rw (sym same) (find-update_settings k (enabled draw u).security_settings u us e),
          )
    ]

-- Where the library throws for every token that is not of six characters, enabling hands out ten
-- codes of eight capitals or digits each, and each of them is refused then: its check throws before
-- the backup codes are looked at.
pub verify_and_enable_refuses :
    (otp_verify : Option String → Codes → Option Bool) (upper : Codes → Codes) (draw : ℕ → ℕ)
    (token : Codes) (k : ℕ) (us us' : Users) (issued : List Codes)
    → ((secret : Option String) (c : Codes) → length c ≢ 6 → otp_verify secret c ≡ none)
    → verify_and_enable otp_verify draw token k us ≡ done issued us'
    → (length issued ≡ 10)
      × All IsBackupCode issued
      × ((c : Codes) → Memᴰ c issued → verify_token otp_verify upper c k us' ≡ failed otp_thrown)
verify_and_enable_refuses otp_verify upper draw token k us us' issued throws h =
    let (u, eq, secret, found) = verify_and_enable_done otp_verify draw token k us us' issued h in
    let (len, good) = backup_codes_lem draw 0 10 in
    (
      ap length eq ∙ len,
      rw eq good,
      λ c m.
          let (eight, _) = All-mem IsBackupCode c issued (rw eq good) m in
          let thrown = throws u.security_settings.mfa_secret c (λ six. omega (arith, eight, six)) in
          verify_token_known otp_verify upper c k us' (enabled draw u) found
          ∙ rw (secret, thrown) refl,
    )
