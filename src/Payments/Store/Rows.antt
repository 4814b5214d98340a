-- ===== src/Payments/Store/Rows.antt =====
-- How writes change the number of rows that pass a test.
use mathlib.Core.List.{Memᴰ}
use mytrackr_backend.Prelude.{
  ℕ, ◌+◌, ◌≤◌, ◌≡◌, ◌≢◌, ◌⊎◌, refl, Bool, true, Option, none, some, List, [], ◌∷◌, arith, ◌==◌, map,
  any, Option-cases, ap, ◌∙◌, sym, ==_iff, Bool-cases, inl, inr, count, All, if◌then◌else◌,
}
use mytrackr_backend.Payments.Entities.{Subscription}
use mytrackr_backend.Payments.Store.{
  find_latest, find_earliest, newer, earlier, replace, find_subscription_by_id,
}

newer-cases :
    (r s : Subscription) (o : Option Subscription) → newer r o ≡ some s → (s ≡ r) ⊎ (o ≡ some s)
newer-cases r s o h = ground arith

earlier-cases :
    (r s : Subscription) (o : Option Subscription) → earlier r o ≡ some s → (s ≡ r) ⊎ (o ≡ some s)
earlier-cases r s o h = ground arith

module _ (p : Subscription → Bool) where
  -- A row found passes the test and is in the table; none is found only if none passes.
  pub find_latest-some :
      (rows : List Subscription) (s : Subscription)
      → find_latest p rows ≡ some s
      → Memᴰ s rows × (p s ≡ true)
  unfolding find_latest
  find_latest-some [] s h = cc
  find_latest-some (r ∷ rows) s h = elim (Bool-cases (p r)) [
    | inl pass ↦ elim (newer-cases r s (find_latest p rows) (rw pass at h)) [
      | inl e ↦ (Memᴰ.head e, rw e pass)
      | inr later ↦ let (m, q) = find_latest-some rows s later in (Memᴰ.tail m, q)
    ]
    | inr fails ↦ let (m, q) = find_latest-some rows s (rw fails at h) in (Memᴰ.tail m, q)
  ]

  pub find_latest-none : (rows : List Subscription) → find_latest p rows ≡ none → count p rows ≡ 0
  unfolding find_latest
  find_latest-none [] h = refl
  find_latest-none (r ∷ rows) h = ground (arith, find_latest-none rows)

  pub find_earliest-some :
      (rows : List Subscription) (s : Subscription)
      → find_earliest p rows ≡ some s
      → Memᴰ s rows × (p s ≡ true)
  unfolding find_earliest
  find_earliest-some [] s h = cc
  find_earliest-some (r ∷ rows) s h = elim (Bool-cases (p r)) [
    | inl pass ↦ elim (earlier-cases r s (find_earliest p rows) (rw pass at h)) [
      | inl e ↦ (Memᴰ.head e, rw e pass)
      | inr later ↦ let (m, q) = find_earliest-some rows s later in (Memᴰ.tail m, q)
    ]
    | inr fails ↦ let (m, q) = find_earliest-some rows s (rw fails at h) in (Memᴰ.tail m, q)
  ]

-- No row of the list has this id.
abbrev pub NoId : ℕ → List Subscription → Type 0
NoId k = All (λ s. s.id ≢ k)

-- Ids are unique.
abbrev pub UniqueIds : List Subscription → Type 0
UniqueIds [] = Unit
UniqueIds (s ∷ ss) = NoId s.id ss × UniqueIds ss

replace-NoId :
    (r : Subscription) (rows : List Subscription) → NoId r.id rows → replace r rows ≡ rows
unfolding replace
replace-NoId r [] h = refl
replace-NoId r (s ∷ rows) (h, hs) = ground (arith, replace-NoId r rows hs)

pub NoId-mem :
    {k : ℕ} {s : Subscription} (rows : List Subscription) → NoId k rows → Memᴰ s rows → s.id ≢ k
NoId-mem [] h m = elim m [ ]
NoId-mem (x ∷ rows) (h, hs) (Memᴰ.head e) = rw e h
NoId-mem (x ∷ rows) (h, hs) (Memᴰ.tail m) = NoId-mem rows hs m

module _ (p : Subscription → Bool) where
  count-replace_here :
      (rows : List Subscription) (s r : Subscription)
      → NoId s.id rows
      → s.id ≡ r.id
      → count p (replace r (s ∷ rows)) + (if p s then 1 else 0)
        ≡ count p (s ∷ rows) + (if p r then 1 else 0)
  unfolding replace
  count-replace_here rows s r u h =
      rw (replace-NoId r rows (rw h at u)) (rw ((==_iff s.id r.id).1 h) (omega arith))

  -- Writing over a row moves the count by the difference that the row makes.
  pub count-replace :
      (rows : List Subscription) (s r : Subscription)
      → UniqueIds rows
      → Memᴰ s rows
      → s.id ≡ r.id
      → count p (replace r rows) + (if p s then 1 else 0) ≡ count p rows + (if p r then 1 else 0)
  unfolding replace
  count-replace [] s r u m h = elim m [ ]
  count-replace (x ∷ rows) s r (u, us) (Memᴰ.head e) h =
      rw e (count-replace_here rows x r u (rw e at h))
  count-replace (x ∷ rows) s r (u, us) (Memᴰ.tail m) h =
      ground (arith, count-replace rows s r us m h, NoId-mem rows u m)

replace_other :
    (r x : Subscription) (rows : List Subscription)
    → x.id ≢ r.id
    → replace r (x ∷ rows) ≡ x ∷ replace r rows
unfolding replace
replace_other r x rows h = ground arith

replace_here :
    (r x : Subscription) (rows : List Subscription)
    → x.id ≡ r.id
    → NoId r.id rows
    → replace r (x ∷ rows) ≡ r ∷ rows
unfolding replace
replace_here r x rows h free = rw (replace-NoId r rows free) (rw ((==_iff x.id r.id).1 h))

-- A row that is written over another is in the table.
pub mem-replace :
    (rows : List Subscription) (s r : Subscription)
    → Memᴰ s rows
    → s.id ≡ r.id
    → Memᴰ r (replace r rows)
unfolding replace
mem-replace [] s r m e = elim m [ ]
mem-replace (x ∷ rows) s r (Memᴰ.head d) e = rw (← d, (==_iff s.id r.id).1 e) (Memᴰ.head refl)
mem-replace (x ∷ rows) s r (Memᴰ.tail m) e = Memᴰ.tail (mem-replace rows s r m e)

-- Writing a row over itself changes nothing.
pub replace_self :
    (rows : List Subscription) (s : Subscription)
    → UniqueIds rows
    → Memᴰ s rows
    → replace s rows ≡ rows
replace_self [] s u m = elim m [ ]
replace_self (x ∷ rows) s (u, us) (Memᴰ.head e) = rw e (replace_here x x rows refl u)
replace_self (x ∷ rows) s (u, us) (Memᴰ.tail m) =
    rw (replace_other s x rows (λ q. NoId-mem rows u m (sym q))) (rw (replace_self rows s us m))

-- What is in the table after a write
pub mem-replace_cases :
    (rows : List Subscription) (x r : Subscription)
    → Memᴰ x (replace r rows)
    → (x ≡ r) ⊎ Memᴰ x rows
unfolding replace
mem-replace_cases [] x r m = elim m [ ]
mem-replace_cases (y ∷ rows) x r (Memᴰ.head e) = elim (Bool-cases (y.id == r.id)) [
  | inl same ↦ inl (rw same at e)
  | inr other ↦ inr (Memᴰ.head (rw other at e))
]
mem-replace_cases (y ∷ rows) x r (Memᴰ.tail m) = elim (mem-replace_cases rows x r m) [
  | inl new ↦ inl new
  | inr old ↦ inr (Memᴰ.tail old)
]

-- A row with another id stays.
pub mem-replace_other :
    (rows : List Subscription) (s r : Subscription)
    → Memᴰ s rows
    → s.id ≢ r.id
    → Memᴰ s (replace r rows)
unfolding replace
mem-replace_other [] s r m e = elim m [ ]
mem-replace_other (x ∷ rows) s r (Memᴰ.head d) e =
    Memᴰ.head
      (ground (arith, d, e, (λ (q : x.id ≡ r.id). e (ap (λ (t : Subscription). t.id) d ∙ q))))
mem-replace_other (x ∷ rows) s r (Memᴰ.tail m) e = Memᴰ.tail (mem-replace_other rows s r m e)

-- Two rows of a table with one id are one row.
pub eq_of_id :
    (rows : List Subscription) (s t : Subscription)
    → UniqueIds rows
    → Memᴰ s rows
    → Memᴰ t rows
    → s.id ≡ t.id
    → s ≡ t
eq_of_id [] s t u m n e = elim m [ ]
eq_of_id (x ∷ rows) s t (u, us) (Memᴰ.head p) (Memᴰ.head q) e = p ∙ sym q
eq_of_id (x ∷ rows) s t (u, us) (Memᴰ.head p) (Memᴰ.tail n) e =
    absurd (NoId-mem rows u n (sym e ∙ ap (λ (r : Subscription). r.id) p))
eq_of_id (x ∷ rows) s t (u, us) (Memᴰ.tail m) (Memᴰ.head q) e =
    absurd (NoId-mem rows u m (e ∙ ap (λ (r : Subscription). r.id) q))
eq_of_id (x ∷ rows) s t (u, us) (Memᴰ.tail m) (Memᴰ.tail n) e = eq_of_id rows s t us m n e

module _ (p : Subscription → Bool) where
  pub any-mem :
      (rows : List Subscription) (s : Subscription) → Memᴰ s rows → p s ≡ true → any p rows ≡ true
  any-mem [] s m h = elim m [ ]
  any-mem (x ∷ rows) s (Memᴰ.head e) h = rw (← e, h)
  any-mem (x ∷ rows) s (Memᴰ.tail m) h = ground (arith, any-mem rows s m h)

  pub count-mem :
      (rows : List Subscription) (s : Subscription) → Memᴰ s rows → p s ≡ true → 1 ≤ count p rows
  count-mem [] s m h = elim m [ ]
  count-mem (x ∷ rows) s (Memᴰ.head e) h = rw (← e, h) (omega arith)
  count-mem (x ∷ rows) s (Memᴰ.tail m) h = omega (arith, count-mem rows s m h)

  -- A test that one row passes at most is passed by one row only.
  pub eq_of_count :
      (rows : List Subscription) (s t : Subscription)
      → count p rows ≤ 1
      → Memᴰ s rows
      → Memᴰ t rows
      → p s ≡ true
      → p t ≡ true
      → s ≡ t
  eq_of_count [] s t c m n h k = elim m [ ]
  eq_of_count (x ∷ rows) s t c (Memᴰ.head d) (Memᴰ.head e) h k = d ∙ sym e
  eq_of_count (x ∷ rows) s t c (Memᴰ.head d) (Memᴰ.tail n) h k =
      absurd (omega (arith, count-mem rows t n k, ap {B = ℕ} (λ b. if b then 1 else 0) (rw d at h)))
  eq_of_count (x ∷ rows) s t c (Memᴰ.tail m) (Memᴰ.head e) h k =
      absurd (omega (arith, count-mem rows s m h, ap {B = ℕ} (λ b. if b then 1 else 0) (rw e at k)))
  eq_of_count (x ∷ rows) s t c (Memᴰ.tail m) (Memᴰ.tail n) h k =
      eq_of_count rows s t (omega arith) m n h k

  -- A search finds a row if there is one.
  pub find_latest-mem :
      (rows : List Subscription) (s : Subscription)
      → Memᴰ s rows
      → p s ≡ true
      → (t : Subscription) × (find_latest p rows ≡ some t)
  find_latest-mem rows s m h = elim (Option-cases (find_latest p rows)) [
    | inl missing ↦ absurd (omega (arith, find_latest-none p rows missing, count-mem rows s m h))
    | inr found ↦ found
  ]

-- A function that leaves alone every row but the one with an id, and keeps that id, writes over it.
module _ (f : Subscription → Subscription) (k : ℕ)
    (others : (x : Subscription) → x.id ≢ k → f x ≡ x) where
  pub map-free : (rows : List Subscription) → NoId k rows → map f rows ≡ rows
  map-free [] h = refl
  map-free (x ∷ rows) (h, hs) = cc (others x h, map-free rows hs)

  map-replace_here :
      (x : Subscription) (rows : List Subscription)
      → NoId k rows
      → x.id ≡ k
      → (f x).id ≡ k
      → map f (x ∷ rows) ≡ replace (f x) (x ∷ rows)
  map-replace_here x rows free e g =
      rw (map-free rows free) (sym (replace_here (f x) x rows (e ∙ sym g) (rw g free)))

  pub map-replace :
      (rows : List Subscription) (r : Subscription)
      → UniqueIds rows
      → Memᴰ r rows
      → r.id ≡ k
      → (f r).id ≡ k
      → map f rows ≡ replace (f r) rows
  map-replace [] r u m e g = elim m [ ]
  map-replace (x ∷ rows) r (u, us) (Memᴰ.head p) e g =
      let free : NoId k rows = rw (← e, p) u in
      rw p (map-replace_here x rows free (rw p at e) (rw p at g))
  map-replace (x ∷ rows) r (u, us) (Memᴰ.tail m) e g =
      let ne : x.id ≢ k = λ q. NoId-mem rows u m (e ∙ sym q) in
      rw (replace_other (f r) x rows (λ q. ne (q ∙ g)))
        (cc (others x ne, map-replace rows r us m e g))

pub find_by_id-mem :
    (k : ℕ) (rows : List Subscription) (s : Subscription)
    → Memᴰ s rows
    → s.id ≡ k
    → (t : Subscription) × (find_subscription_by_id k rows ≡ some t)
unfolding find_subscription_by_id
find_by_id-mem k rows s m e = find_latest-mem (λ r. r.id == k) rows s m ((==_iff s.id k).1 e)

pub find_by_id-some :
    (k : ℕ) (rows : List Subscription) (s : Subscription)
    → find_subscription_by_id k rows ≡ some s
    → Memᴰ s rows × (s.id ≡ k)
unfolding find_subscription_by_id
find_by_id-some k rows s h =
    let (m, e) = find_latest-some (λ r. r.id == k) rows s h in (m, (==_iff s.id k).0 e)
