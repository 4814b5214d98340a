-- ===== src/Mono/Identity/Conflicts.antt =====
-- When the reconciliation throws.
use mathlib.Core.List.{Memᴰ}
use mathlib.Core.List.Memᴰ
use mytrackr_backend.Prelude.Codes.{Codes}
use mytrackr_backend.Prelude.{
  ◌≡◌, ◌≢◌, inl, inr, none, some, String, List, [], ◌∷◌, arith, Option-cases, if_both,
}
use mytrackr_backend.Mono.Identity.{
  Index, find_id, ids_of, index_rows, insert_row, ordered, comes_before, Reconciled,
  reconcile_mono_transactions,
}
use mytrackr_backend.Mono.Entities.{MonoTransaction, Incoming}
use mytrackr_backend.Mono.Identity.Index.{index_rows-Owns, index_rows_refused}

insert_row-mem :
    (r x : MonoTransaction) (rows : List MonoTransaction)
    → Memᴰ x (insert_row r rows)
    → Memᴰ x (r ∷ rows)
unfolding insert_row
insert_row-mem r x [] m = m
insert_row-mem r x (y ∷ rows) m =
    if_both (λ (l : List MonoTransaction). Memᴰ x l → Memᴰ x (r ∷ y ∷ rows)) (comes_before r y)
      (r ∷ y ∷ rows) (y ∷ insert_row r rows) (λ _ k. k)
      (λ _ k. elim (Memᴰ.cases_cons k) [
        | inl e ↦ Memᴰ.tail (Memᴰ.head e)
        | inr there ↦ elim (Memᴰ.cases_cons (insert_row-mem r x rows there)) [
          | inl e ↦ Memᴰ.head e
          | inr below ↦ Memᴰ.tail (Memᴰ.tail below)
        ]
      ])
      m

mem-insert_row :
    (r x : MonoTransaction) (rows : List MonoTransaction)
    → Memᴰ x (r ∷ rows)
    → Memᴰ x (insert_row r rows)
unfolding insert_row
mem-insert_row r x [] m = m
mem-insert_row r x (y ∷ rows) m =
    if_both (λ (l : List MonoTransaction). Memᴰ x l) (comes_before r y) (r ∷ y ∷ rows)
      (y ∷ insert_row r rows) (λ _. m)
      (λ _. elim (Memᴰ.cases_cons m) [
        | inl e ↦ Memᴰ.tail (mem-insert_row r x rows (Memᴰ.head e))
        | inr there ↦ elim (Memᴰ.cases_cons there) [
          | inl e ↦ Memᴰ.head e
          | inr below ↦ Memᴰ.tail (mem-insert_row r x rows (Memᴰ.tail below))
        ]
      ])

-- Ordering the rows keeps them all and adds none.
pub ordered-mem :
    (x : MonoTransaction) (rows : List MonoTransaction)
    → (Memᴰ x (ordered rows) → Memᴰ x rows) × (Memᴰ x rows → Memᴰ x (ordered rows))
unfolding ordered
ordered-mem x [] = (λ m. m, λ m. m)
ordered-mem x (r ∷ rows) =
    let (from, to) = ordered-mem x rows in
    (
      λ m. elim (Memᴰ.cases_cons (insert_row-mem r x (ordered rows) m)) [
        | inl e ↦ Memᴰ.head e
        | inr there ↦ Memᴰ.tail (from there)
      ],
      λ m.
          mem-insert_row r x (ordered rows)
            (elim (Memᴰ.cases_cons m) [ inl e ↦ Memᴰ.head e | inr there ↦ Memᴰ.tail (to there) ]),
    )

-- An id that two rows have in common
pub record Shared (q : String) (r s : MonoTransaction) (rows : List MonoTransaction) : Type 0 where
  pub one : Memᴰ r rows
  pub other : Memᴰ s rows
  pub in_one : Memᴰ q (ids_of r)
  pub in_other : Memᴰ q (ids_of s)

index_ordered :
    (lower upper : Codes → Codes) (incoming : List Incoming) (existing : List MonoTransaction)
    → (reconcile_mono_transactions lower upper incoming existing ≡ none
        → index_rows (ordered existing) [] ≡ none)
      × ((res : Reconciled)
          → reconcile_mono_transactions lower upper incoming existing ≡ some res
          → (m : Index) × (index_rows (ordered existing) [] ≡ some m))
unfolding reconcile_mono_transactions
index_ordered lower upper incoming existing =
    elim (Option-cases (index_rows (ordered existing) [])) [
      | inl e ↦ (λ _. e, λ res h. let bad : ⊥ = ground arith in elim bad [ ])
      | inr (m, e) ↦ (λ h. let bad : ⊥ = ground arith in elim bad [ ], λ res h. (m, e))
    ]

-- The reconciliation throws exactly when two stored rows with different ids have a provider id in
-- common, as their own or as an alias, whatever is downloaded.
pub reconcile_mono_transactions_conflicts :
    (lower upper : Codes → Codes) (incoming : List Incoming) (existing : List MonoTransaction)
    → (reconcile_mono_transactions lower upper incoming existing ≡ none
        → (q : String) × (r : MonoTransaction) × (s : MonoTransaction) × Shared q r s existing
          × (s.id ≢ r.id))
      × ((res : Reconciled)
          → reconcile_mono_transactions lower upper incoming existing ≡ some res
          → (q : String) (r s : MonoTransaction) → Shared q r s existing
          → s.id ≡ r.id)
unfolding find_id
reconcile_mono_transactions_conflicts lower upper incoming existing =
    let (refused, indexed) = index_ordered lower upper incoming existing in
    let back = λ (x : MonoTransaction). (ordered-mem x existing).0 in
    let into = λ (x : MonoTransaction). (ordered-mem x existing).1 in
    (
      λ h.
          let (q, r, s, mem, own, other, found) =
            index_rows_refused (ordered existing) [] (refused h) in
          elim found [
            | inl e ↦ let bad : ⊥ = cc in elim bad [ ]
            | inr (there, has) ↦ (
              q,
              r,
              s,
              record { one = back r mem; other = back s there; in_one = own; in_other = has },
              other,
            )
          ],
      λ res h q r s shared.
          let (m, e) = indexed res h in
          let (keep, own) = index_rows-Owns (ordered existing) [] m e in
          let (x, fx, ix) = own r q (into r shared.one) shared.in_one in
          let (y, fy, iy) = own s q (into s shared.other) shared.in_other in cc,
    )
