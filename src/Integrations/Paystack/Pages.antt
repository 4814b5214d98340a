-- ===== src/Integrations/Paystack/Pages.antt =====
-- The loops over pages end when a page is not full.
use mathlib.Core.Path.{subst}
use mytrackr_backend.Prelude.{
  ℕ, zero, suc, ◌+◌, ◌≤◌, ◌<◌, ◌≡◌, refl, ◌∙◌, ap, false, some, String, List, [], ◌++◌, arith,
  length, ltb, Bool-cases, inl, inr, ◌⊎◌,
}
use mathlib.Core.List.{append_assoc}
use mytrackr_backend.Integrations.Paystack.{Reply, rows, failed, per_page, fetch_from, fetch_all}

-- Rows before those of a reply
abbrev pub prepend : {A : Type 0} → List A → Reply A → Reply A
prepend xs (rows ys) = rows (xs ++ ys)
prepend xs (failed message) = failed message

-- What the loop is to give from a page on: a failure as it is, the rows of a page that is not full,
-- and those of a full page before what the next page gives.
pub data Fetched {A : Type 0} (get : ℕ → Reply A) : ℕ → Reply A → Type 0 where
  fails :
      {page : ℕ} (message : String) → get page ≡ failed message → Fetched get page (failed message)
  last :
      {page : ℕ} (rs : List A)
      → get page ≡ rows rs
      → length rs < per_page
      → Fetched get page (rows rs)
  more :
      {page : ℕ} {out : Reply A} (rs : List A)
      → get page ≡ rows rs
      → per_page ≤ length rs
      → Fetched get (page + 1) out
      → Fetched get page (prepend rs out)

-- A page that ends the loop: one that is not full, or a failure
abbrev pub IsLast : {A : Type 0} → Reply A → Type 0
IsLast (rows rs) = length rs < per_page
IsLast (failed message) = Unit

prepend-append :
    {A : Type 0} (xs ys : List A) (r : Reply A) → prepend (xs ++ ys) r ≡ prepend xs (prepend ys r)
prepend-append xs ys (rows zs) = ap rows (append_assoc xs ys zs)
prepend-append xs ys (failed message) = refl

prepend_nil : {A : Type 0} (r : Reply A) → prepend [] r ≡ r
prepend_nil (rows rs) = refl
prepend_nil (failed message) = refl

Reply-cases :
    {A : Type 0} (r : Reply A)
    → ((rs : List A) × (r ≡ rows rs)) ⊎ ((message : String) × (r ≡ failed message))
Reply-cases (rows rs) = inl (rs, refl)
Reply-cases (failed message) = inr (message, refl)

-- What the loop gives, over the rows that it has already
abbrev Ends : {A : Type 0} → (ℕ → Reply A) → (fuel page : ℕ) → List A → Type 0
Ends {A} get fuel page all =
    (out : Reply A) × (fetch_from get fuel page all ≡ some (prepend all out)) × Fetched get page out

full_page :
    {A : Type 0} (get : ℕ → Reply A) (fuel page : ℕ) (all rs : List A)
    → get page ≡ rows rs
    → ltb (length rs) per_page ≡ false
    → Ends get fuel (page + 1) (all ++ rs)
    → Ends get (suc fuel) page all
unfolding fetch_from
full_page get fuel page all rs here full (out, e, ends) = (
  prepend rs out,
  rw (here, fetch_from) (rw full (e ∙ ap some (prepend-append all rs out))),
  more rs here (ground arith) ends,
)

contradiction :
    {A : Type 0} (rs : List A) → length rs < per_page → ltb (length rs) per_page ≡ false → ⊥
contradiction rs short full = ground arith

next_page :
    {A : Type 0} (get : ℕ → Reply A) (fuel n page : ℕ) (all rs : List A)
    → IsLast (get (page + n))
    → n < suc fuel
    → get page ≡ rows rs
    → ltb (length rs) per_page ≡ false
    → ((m later : ℕ) (ys : List A) → IsLast (get (later + m)) → m < fuel → Ends get fuel later ys)
    → Ends get fuel (page + 1) all
next_page get fuel zero page all rs h lt e full ih =
    let short : IsLast (rows rs) = subst (λ r. IsLast r) (ap get (omega arith) ∙ e) h in
    absurd (contradiction rs short full)
next_page get fuel (suc n) page all rs h lt e full ih =
    ih n (page + 1) all (subst (λ (k : ℕ). IsLast (get k)) (omega arith) h) (omega arith)

fetch_from-Ends :
    {A : Type 0} (get : ℕ → Reply A) (fuel n page : ℕ) (all : List A)
    → IsLast (get (page + n))
    → n < fuel
    → Ends get fuel page all
unfolding fetch_from
fetch_from-Ends get zero n page all h lt = absurd (omega arith)
fetch_from-Ends get (suc fuel) n page all h lt = elim (Reply-cases (get page)) [
  | inr (message, e) ↦ (failed message, rw (e, fetch_from) refl, fails message e)
  | inl (rs, e) ↦ elim (Bool-cases (ltb (length rs) per_page)) [
    | inl short ↦ (rows rs, rw (e, fetch_from) (rw short refl), last rs e (ground arith))
    | inr full ↦
        full_page get fuel page all rs e full
          (next_page get fuel n page (all ++ rs) rs h lt e full (fetch_from-Ends get fuel))
  ]
]

-- Where a page, `n` after the first, is not full or fails, the loop ends with any fuel beyond `n`, and
-- gives what is to be fetched from the first page on.
pub fetch_all_ends :
    {A : Type 0} (get : ℕ → Reply A) (n fuel : ℕ)
    → IsLast (get (1 + n))
    → n < fuel
    → (out : Reply A) × (fetch_all get fuel ≡ some out) × Fetched get 1 out
unfolding fetch_all
fetch_all_ends get n fuel h lt =
    let (out, e, ends) = fetch_from-Ends get fuel n 1 [] h lt in
    (out, e ∙ ap some (prepend_nil out), ends)
