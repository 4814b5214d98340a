-- ===== src/Mono/Identity/Outcome.antt =====
-- The result of the reconciliation.
use mathlib.Core.List.{Memᴰ}
use mathlib.Core.List.Memᴰ
use mytrackr_backend.Prelude.{
  ℕ, ◌≤◌, ◌≡◌, sym, ◌⊎◌, inl, inr, none, some, String, List, [], ◌∷◌, ◌==◌, str_eq, All, count,
  arith, Option-cases, if_both,
}
use mytrackr_backend.Prelude.Codes.{Codes}
use mytrackr_backend.Mono.Identity.{
  Index, find_id, index_rows, ordered, Update, put, put_all, bucket_rows, visit_all, start,
  conclude, Progress, Reconciled, reconcile_mono_transactions,
}
use mytrackr_backend.Mono.Entities.{MonoTransaction, Incoming}
use mytrackr_backend.Mono.Identity.Index.{index_rows-Owns, index_rows-find_id}
use mytrackr_backend.Mono.Identity.Conflicts.{ordered-mem}
use mytrackr_backend.Mono.Identity.Keys.{IsFiled, filed}
use mytrackr_backend.Mono.Identity.Claims.{IsClaim, IsLasting, IsTrue, IsUnknown, visit_all-IsTrue}

-- Taking the last of each id adds no transaction.
put-mem : (x tx : Incoming) (xs : List Incoming) → Memᴰ x (put tx xs) → (x ≡ tx) ⊎ Memᴰ x xs
unfolding put
put-mem x tx [] m = inl (Memᴰ.eq_of_singleton m)
put-mem x tx (y ∷ xs) m =
    if_both (λ (l : List Incoming). Memᴰ x l → (x ≡ tx) ⊎ Memᴰ x (y ∷ xs)) (str_eq y.id tx.id)
      (tx ∷ xs) (y ∷ put tx xs)
      (λ _ k. elim (Memᴰ.cases_cons k) [ inl e ↦ inl e | inr there ↦ inr (Memᴰ.tail there) ])
      (λ _ k. elim (Memᴰ.cases_cons k) [
        | inl e ↦ inr (Memᴰ.head e)
        | inr there ↦ elim (put-mem x tx xs there) [
          | inl e ↦ inl e
          | inr below ↦ inr (Memᴰ.tail below)
        ]
      ])
      m

put_all-mem :
    (x : Incoming) (txs done : List Incoming) → Memᴰ x (put_all txs done) → Memᴰ x txs ⊎ Memᴰ x done
unfolding put_all
put_all-mem x [] done m = inr m
put_all-mem x (tx ∷ txs) done m = elim (put_all-mem x txs (put tx done) m) [
  | inl later ↦ inl (Memᴰ.tail later)
  | inr now ↦ elim (put-mem x tx done now) [ inl e ↦ inl (Memᴰ.head e) | inr before ↦ inr before ]
]

put-All :
    (P : Incoming → Type 0) (tx : Incoming) (xs : List Incoming)
    → P tx
    → All P xs
    → All P (put tx xs)
unfolding put
put-All P tx [] h hs = (h, tt)
put-All P tx (y ∷ xs) h (k, ks) =
    if_both (All P) (str_eq y.id tx.id) (tx ∷ xs) (y ∷ put tx xs) (λ _. (h, ks))
      (λ _. (k, put-All P tx xs h ks))

put_all-All :
    (P : Incoming → Type 0) (txs done : List Incoming)
    → All P txs
    → All P done
    → All P (put_all txs done)
unfolding put_all
put_all-All P [] done h k = k
put_all-All P (tx ∷ txs) done (h, hs) k = put_all-All P txs (put tx done) hs (put-All P tx done h k)

module _ (lower upper : Codes → Codes) (incoming : List Incoming)
    (existing : List MonoTransaction) where
  -- The loop's result for the rows in order
  abbrev run : Index → Progress
  run m =
      visit_all lower upper (bucket_rows lower upper (ordered existing) []) (put_all incoming [])
        (start m (put_all incoming []))

  filed_rows : IsFiled lower upper existing (bucket_rows lower upper (ordered existing) [])
  filed_rows k r m =
      let (there, key) = filed lower upper (ordered existing) k r m in
      ((ordered-mem r existing).0 there, key)

  indexed :
      (m : Index)
      → index_rows (ordered existing) [] ≡ some m
      → ((q : String) (r : MonoTransaction) → find_id q m ≡ some r → Memᴰ r existing)
        × ((q : String) → find_id q m ≡ none → IsUnknown q existing)
  unfolding find_id
  indexed m e = (
    λ q r f. elim (index_rows-find_id (ordered existing) [] m e q r f) [
      | inl no_row ↦ let bad : ⊥ = cc in elim bad [ ]
      | inr (there, _) ↦ (ordered-mem r existing).0 there
    ],
    λ q f r mem own.
        let (s, found, _) =
          (index_rows-Owns (ordered existing) [] m e).1 r q ((ordered-mem r existing).1 mem) own in
        cc,
  )

  run-IsTrue :
      (m : Index)
      → index_rows (ordered existing) [] ≡ some m
      → IsTrue lower upper incoming existing
          (bucket_rows lower upper (ordered existing) [])
          filed_rows
          (run m)
  run-IsTrue m e =
      let (rows, unknown) = indexed m e in
      visit_all-IsTrue lower upper incoming existing (bucket_rows lower upper (ordered existing) [])
        filed_rows (put_all incoming []) (start m (put_all incoming []))
        (λ x mem. elim (put_all-mem x incoming [] mem) [
          | inl here ↦ here
          | inr none_yet ↦ elim (Memᴰ.not-nil none_yet) [ ]
        ])
        (record {
          rows = rows;
          unknown = unknown;
          claims = tt;
          taken = tt;
          once = λ k. omega arith;
          lasting = tt;
        })

  finished :
      (res : Reconciled)
      → reconcile_mono_transactions lower upper incoming existing ≡ some res
      → (m : Index) × (index_rows (ordered existing) [] ≡ some m) × (conclude (run m) ≡ res)
  unfolding reconcile_mono_transactions
  finished res h = elim (Option-cases (index_rows (ordered existing) [])) [
    | inl e ↦ let bad : ⊥ = ground arith in elim bad [ ]
    | inr (m, e) ↦ (m, e, ground arith)
  ]

  -- In a reconciliation that returns, each update is of a stored row and gives it the id of one
  -- downloaded transaction that no stored row had and that has the same key; no row has two
  -- updates.
  pub reconcile_mono_transactions-IsClaim :
      (res : Reconciled)
      → reconcile_mono_transactions lower upper incoming existing ≡ some res
      → All (IsClaim lower upper incoming existing) res.aliases
        × ((k : ℕ) → count (λ (u : Update). u.id == k) res.aliases ≤ 1)
  reconcile_mono_transactions-IsClaim res h =
      let (m, e, eq) = finished res h in let ok = run-IsTrue m e in rw (sym eq) (ok.claims, ok.once)

  -- In a reconciliation that returns, each transaction is new, with an id that no stored row has, or
  -- it is under the own id of a stored row that is not deleted.
  pub reconcile_mono_transactions-IsLasting :
      (res : Reconciled)
      → reconcile_mono_transactions lower upper incoming existing ≡ some res
      → All (IsLasting existing) res.transactions
  reconcile_mono_transactions-IsLasting res h =
      let (m, e, eq) = finished res h in
      let ok = run-IsTrue m e in
      rw (sym eq) (put_all-All (IsLasting existing) (run m).transactions [] ok.lasting tt)
