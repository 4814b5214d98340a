-- ===== src/Reports/Treatment/Normal.antt =====
-- Normal texts: words of lower-case letters and digits, one space apart.
use mytrackr_backend.Prelude.{
  ℕ, ◌≡◌, ◌∙◌, ap, refl, Bool, true, false, ◌||◌, [], ◌∷◌, arith, ◌==◌, All, inl, inr, Bool-cases,
  if_both, if◌then◌else◌,
}
use mytrackr_backend.Prelude.Codes.{Codes, is_word, lower_one, to_lower_case}
use mytrackr_backend.Reports.Treatment.{squeeze, trim_start, normalize}

squeeze-word :
    (p : Bool) (c : ℕ) (cs : Codes)
    → is_word c ≡ true
    → squeeze p (c ∷ cs) ≡ (if p then 32 ∷ c ∷ squeeze false cs else c ∷ squeeze false cs)
unfolding squeeze
squeeze-word p c cs w = rw w refl

squeeze-other :
    (p : Bool) (c : ℕ) (cs : Codes) → is_word c ≡ false → squeeze p (c ∷ cs) ≡ squeeze true cs
unfolding squeeze
squeeze-other p c cs w = rw w refl

squeeze-nil : (p : Bool) → squeeze p [] ≡ []
unfolding squeeze
squeeze-nil p = refl

squeeze_twice :
    (cs : Codes)
    → ((p : Bool) → squeeze p (squeeze true cs) ≡ squeeze true cs)
      × (squeeze false (squeeze false cs) ≡ squeeze false cs)
squeeze_twice [] = (λ p. rw squeeze-nil (squeeze-nil p), rw squeeze-nil (squeeze-nil false))
squeeze_twice (c ∷ cs) =
    let (later, again) = squeeze_twice cs in
    elim (Bool-cases (is_word c)) [
      | inl w ↦ (
        λ p. rw (squeeze-word true c cs w) (
            squeeze-other p 32 (c ∷ squeeze false cs) refl
            ∙ squeeze-word true c (squeeze false cs) w
            ∙ ap (λ x. 32 ∷ c ∷ x) again),
        rw (squeeze-word false c cs w)
            (squeeze-word false c (squeeze false cs) w ∙ ap (λ x. c ∷ x) again),
      )
      | inr o ↦ (
        λ p. rw (squeeze-other true c cs o) (later p),
        rw (squeeze-other false c cs o) (later false),
      )
    ]

-- Word characters and spaces only
abbrev IsPlain : Codes → Type 0
IsPlain = All (λ c. (is_word c || c == 32) ≡ true)

squeeze-IsPlain : (p : Bool) (cs : Codes) → IsPlain (squeeze p cs)
squeeze-IsPlain p [] = rw squeeze-nil tt
squeeze-IsPlain p (c ∷ cs) = elim (Bool-cases (is_word c)) [
  | inr o ↦ rw (squeeze-other p c cs o) (squeeze-IsPlain true cs)
  | inl w ↦ rw (squeeze-word p c cs w) (plain p (ground arith) (squeeze-IsPlain false cs))
]
  where
    plain :
        (q : Bool)
        → (is_word c || c == 32) ≡ true
        → IsPlain (squeeze false cs)
        → IsPlain (if q then 32 ∷ c ∷ squeeze false cs else c ∷ squeeze false cs)
    plain true h hs = (refl, (h, hs))
    plain false h hs = (h, hs)

lower_one_plain : (c : ℕ) → (is_word c || c == 32) ≡ true → lower_one c ≡ c ∷ []
unfolding lower_one
lower_one_plain c h = ground arith

to_lower_case_plain : (cs : Codes) → IsPlain cs → to_lower_case cs ≡ cs
unfolding to_lower_case
to_lower_case_plain [] h = refl
to_lower_case_plain (c ∷ cs) (h, hs) =
    rw (lower_one_plain c h) (ap (λ x. c ∷ x) (to_lower_case_plain cs hs))

IsPlain-trim_start : (cs : Codes) → IsPlain cs → IsPlain (trim_start cs)
unfolding trim_start
IsPlain-trim_start [] h = tt
IsPlain-trim_start (c ∷ cs) (h, hs) = if_both IsPlain (c == 32) cs (c ∷ cs) (λ _. hs) (λ _. (h, hs))

abbrev IsFixed : Codes → Type 0
IsFixed s = trim_start (squeeze false (trim_start s)) ≡ trim_start s

-- A text that starts with a word
IsFixed-word :
    (c : ℕ) (cs : Codes)
    → is_word c ≡ true
    → trim_start (squeeze false (c ∷ squeeze false cs)) ≡ c ∷ squeeze false cs
unfolding trim_start
IsFixed-word c cs w =
    let other : (c == 32) ≡ false = ground arith in
    rw (squeeze-word false c (squeeze false cs) w, (squeeze_twice cs).1) (rw other refl)

trim_start-word : (c : ℕ) (cs : Codes) → is_word c ≡ true → trim_start (c ∷ cs) ≡ c ∷ cs
unfolding trim_start
trim_start-word c cs w = (let other : (c == 32) ≡ false = ground arith in rw other refl)

trim_start-space : (cs : Codes) → trim_start (32 ∷ cs) ≡ cs
unfolding trim_start
trim_start-space cs = refl

IsFixed-nil : IsFixed []
unfolding trim_start squeeze
IsFixed-nil = refl

squeeze-IsFixed : (cs : Codes) → IsFixed (squeeze true cs) × IsFixed (squeeze false cs)
squeeze-IsFixed [] = (rw squeeze-nil IsFixed-nil, rw squeeze-nil IsFixed-nil)
squeeze-IsFixed (c ∷ cs) = elim (Bool-cases (is_word c)) [
  | inr o ↦
      rw (squeeze-other true c cs o, squeeze-other false c cs o)
        ((squeeze-IsFixed cs).0, (squeeze-IsFixed cs).0)
  | inl w ↦ (
    rw (squeeze-word true c cs w) (rw trim_start-space (IsFixed-word c cs w)),
    rw (squeeze-word false c cs w)
        (rw (trim_start-word c (squeeze false cs) w) (IsFixed-word c cs w)),
  )
]

-- Normalizing a text twice is normalizing it once.
normalize_idem : (text : Codes) → normalize (normalize text) ≡ normalize text
unfolding normalize
normalize_idem text =
    let low = to_lower_case text in
    let plain = IsPlain-trim_start (squeeze false low) (squeeze-IsPlain false low) in
    rw (to_lower_case_plain (trim_start (squeeze false low)) plain) (squeeze-IsFixed low).1
