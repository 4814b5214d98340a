-- ===== src/Mono/Identity/Keys.antt =====
-- Rows are matched by equal keys.
use mathlib.Core.List.{Memᴰ}
use mathlib.Core.List.Memᴰ
use mytrackr_backend.Prelude.{
  ℕ, ◌≡◌, ◌∙◌, sym, ap, refl, inl, inr, Bool, true, false, ◌&&◌, Option, none, some, List, [], ◌∷◌,
  ◌++◌, ◌==◌, any, arith, Bool-cases, Option-cases, if_both,
}
use mytrackr_backend.Prelude.Int.{ℤ, pos, negsuc, eq_ℤ}
use mytrackr_backend.Prelude.Codes.{Codes, codes_eq}
use mytrackr_backend.Mono.Identity.{
  same_key, eq_balance, Buckets, bucket, bucket_row, bucket_rows, fingerprint, first_free,
  match_content,
}
use mytrackr_backend.Mono.Entities.{MonoTransaction, Incoming, Key}

codes_eq_lem : (cs ds : Codes) → codes_eq cs ds ≡ true → cs ≡ ds
unfolding codes_eq
codes_eq_lem [] [] h = refl
codes_eq_lem [] (d ∷ ds) h = cc
codes_eq_lem (c ∷ cs) [] h = cc
codes_eq_lem (c ∷ cs) (d ∷ ds) h = let ih = codes_eq_lem cs ds in ground arith

eq_ℤ_lem : (a b : ℤ) → eq_ℤ a b ≡ true → a ≡ b
eq_ℤ_lem (pos a) (pos b) h = ground arith
eq_ℤ_lem (pos a) (negsuc b) h = cc
eq_ℤ_lem (negsuc a) (pos b) h = cc
eq_ℤ_lem (negsuc a) (negsuc b) h = ground arith

eq_balance_lem : (a b : Option ℤ) → eq_balance a b ≡ true → a ≡ b
eq_balance_lem none none h = refl
eq_balance_lem none (some b) h = cc
eq_balance_lem (some a) none h = cc
eq_balance_lem (some a) (some b) h = ap some (eq_ℤ_lem a b h)

and_both : (a b : Bool) → (a && b) ≡ true → (a ≡ true) × (b ≡ true)
and_both true b h = (refl, h)
and_both false b h = (h, cc)

same_key_lem : (j k : Key) → same_key j k ≡ true → j ≡ k
unfolding same_key
same_key_lem j k h = ground (
  arith,
  eq_ℤ_lem j.date k.date,
  eq_ℤ_lem j.amount k.amount,
  eq_balance_lem j.balance k.balance,
  codes_eq_lem j.type k.type,
  codes_eq_lem j.currency k.currency,
  codes_eq_lem j.narration k.narration,
)

module _ (lower upper : Codes → Codes) where
  -- A bucket holds stored rows that have its key.
  abbrev pub IsFiled : List MonoTransaction → Buckets → Type 0
  IsFiled rows b =
      (k : Key) (r : MonoTransaction)
      → Memᴰ r (bucket k b)
      → Memᴰ r rows × (fingerprint lower upper r.content ≡ some k)

  bucket_row_skip :
      (r : MonoTransaction) (b : Buckets)
      → fingerprint lower upper r.content ≡ none
      → bucket_row lower upper r b ≡ b
  unfolding bucket_row
  bucket_row_skip r b e = rw (e, bucket_row) refl

  bucket_row_add :
      (r : MonoTransaction) (b : Buckets) (j : Key)
      → fingerprint lower upper r.content ≡ some j
      → bucket_row lower upper r b ≡ (j, bucket j b ++ r ∷ []) ∷ b
  unfolding bucket_row
  bucket_row_add r b j e = rw (e, bucket_row) refl

  bucket-IsFiled :
      (rows : List MonoTransaction) (r : MonoTransaction) (b : Buckets) (j : Key)
      → Memᴰ r rows
      → IsFiled rows b
      → fingerprint lower upper r.content ≡ some j
      → IsFiled rows ((j, bucket j b ++ r ∷ []) ∷ b)
  unfolding bucket
  bucket-IsFiled rows r b j mem h e k x =
      if_both
        (λ (l : List MonoTransaction).
          Memᴰ x l → Memᴰ x rows × (fingerprint lower upper x.content ≡ some k))
        (same_key j k) (bucket j b ++ r ∷ []) (bucket k b)
        (λ same m. elim (Memᴰ.append_cases (bucket j b) m) [
          | inl there ↦ let (mx, fx) = h j x there in (mx, fx ∙ ap some (same_key_lem j k same))
          | inr here ↦
              let xr = Memᴰ.eq_of_singleton here in
              (
                rw xr mem,
                ap (λ (y : MonoTransaction). fingerprint lower upper y.content) xr
                    ∙ e
                    ∙ ap some (same_key_lem j k same),
              )
        ])
        (λ _ m. h k x m)

  bucket_row-IsFiled :
      (rows : List MonoTransaction) (r : MonoTransaction) (b : Buckets)
      → Memᴰ r rows
      → IsFiled rows b
      → IsFiled rows (bucket_row lower upper r b)
  bucket_row-IsFiled rows r b mem h = elim (Option-cases (fingerprint lower upper r.content)) [
    | inl e ↦ rw (bucket_row_skip r b e) h
    | inr (j, e) ↦ rw (bucket_row_add r b j e) (bucket-IsFiled rows r b j mem h e)
  ]

  bucket_rows-IsFiled :
      (all_rows rows : List MonoTransaction) (b : Buckets)
      → ((r : MonoTransaction) → Memᴰ r rows → Memᴰ r all_rows)
      → IsFiled all_rows b
      → IsFiled all_rows (bucket_rows lower upper rows b)
  unfolding bucket_rows
  bucket_rows-IsFiled all_rows [] b sub h = h
  bucket_rows-IsFiled all_rows (r ∷ rows) b sub h =
      bucket_rows-IsFiled all_rows rows (bucket_row lower upper r b) (λ x m. sub x (Memᴰ.tail m))
        (bucket_row-IsFiled all_rows r b (sub r (Memᴰ.head refl)) h)

  pub filed : (rows : List MonoTransaction) → IsFiled rows (bucket_rows lower upper rows [])
  unfolding bucket
  filed rows = bucket_rows-IsFiled rows rows [] (λ _ m. m) (λ k r m. elim (Memᴰ.not-nil m) [ ])

  first_free_lem :
      (used : List ℕ) (rows : List MonoTransaction) (r : MonoTransaction)
      → first_free used rows ≡ some r
      → Memᴰ r rows × (any (λ k. k == r.id) used ≡ false)
  unfolding first_free
  first_free_lem used [] r h = let bad : ⊥ = cc in elim bad [ ]
  first_free_lem used (x ∷ rows) r h = elim (Bool-cases (any (λ k. k == x.id) used)) [
    | inl taken ↦
        let later : first_free used rows ≡ some r = ground arith in
        let (mem, free) = first_free_lem used rows r later in (Memᴰ.tail mem, free)
    | inr free ↦ let here : x ≡ r = ground arith in (Memᴰ.head (sym here), rw (sym here) free)
  ]

  -- A row that is matched is a stored one that is not taken and has the key of the transaction.
  pub match_content_lem :
      (rows : List MonoTransaction) (b : Buckets) (used : List ℕ) (tx : Incoming)
      (r : MonoTransaction)
      → IsFiled rows b
      → match_content lower upper b used tx ≡ some r
      → (k : Key) × (fingerprint lower upper tx.content ≡ some k)
        × (fingerprint lower upper r.content ≡ some k)
        × Memᴰ r rows
        × (any (λ j. j == r.id) used ≡ false)
  unfolding match_content
  match_content_lem rows b used tx r h e =
      elim (Option-cases (fingerprint lower upper tx.content)) [
        | inl no_key ↦ let bad : ⊥ = ground arith in elim bad [ ]
        | inr (k, key) ↦
            let (mem, free) = first_free_lem used (bucket k b) r (ground arith) in
            let (there, same) = h k r mem in (k, key, same, there, free)
      ]
