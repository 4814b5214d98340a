-- ===== src/Mono/Identity/Index.antt =====
-- The index of the stored rows: it finds the rows that have an id, and it fails for two rows with
-- the same one.
use mathlib.Core.List.{Memᴰ}
use mathlib.Core.List.Memᴰ
use mytrackr_backend.Prelude.{
  ℕ, ◌≡◌, ◌≢◌, ◌∙◌, sym, ap, refl, ◌⊎◌, inl, inr, true, false, none, some, String, List, [], ◌∷◌,
  ◌==◌, str_eq, str_eq_iff, arith, Bool-cases, Option-cases,
}
use mytrackr_backend.Mono.Identity.{Index, find_id, index_ids, ids_of, index_rows}
use mytrackr_backend.Mono.Entities.{MonoTransaction}

-- The row that an id finds has the number.
abbrev pub Owns : Index → String → ℕ → Type 0
Owns m q k = (s : MonoTransaction) × (find_id q m ≡ some s) × (s.id ≡ k)

pub find_id_new : (q : String) (r : MonoTransaction) (m : Index) → find_id q ((q, r) ∷ m) ≡ some r
unfolding find_id
find_id_new q r m = rw ((str_eq_iff q q).1 refl) refl

pub find_id_at :
    (p q : String) (r : MonoTransaction) (m : Index)
    → str_eq p q ≡ true
    → find_id q ((p, r) ∷ m) ≡ some r
unfolding find_id
find_id_at p q r m e = rw e refl

pub find_id_past :
    (p q : String) (r : MonoTransaction) (m : Index)
    → str_eq p q ≡ false
    → find_id q ((p, r) ∷ m) ≡ find_id q m
unfolding find_id
find_id_past p q r m e = rw e refl

pub find_id_cons :
    (p q : String) (r s : MonoTransaction) (m : Index)
    → find_id q ((p, r) ∷ m) ≡ some s
    → ((p ≡ q) × (r ≡ s)) ⊎ (find_id q m ≡ some s)
unfolding find_id
find_id_cons p q r s m h = elim (Bool-cases (str_eq p q)) [
  | inl e ↦ inl ((str_eq_iff p q).0 e, ground arith)
  | inr e ↦ inr (ground arith)
]

index_ids_step :
    (r : MonoTransaction) (p : String) (ps : List String) (m n : Index)
    → index_ids r (p ∷ ps) m ≡ some n
    → (index_ids r ps ((p, r) ∷ m) ≡ some n)
      × ((s : MonoTransaction) → find_id p m ≡ some s → s.id ≡ r.id)
unfolding index_ids
index_ids_step r p ps m n h = elim (Option-cases (find_id p m)) [
  | inl e ↦ (ground arith, λ s k. cc)
  | inr (q, e) ↦ elim (Bool-cases (q.id == r.id)) [
    | inl same ↦ (ground arith, λ s k. ground arith)
    | inr other ↦ (ground arith, ground arith)
  ]
]

index_ids-none :
    (r : MonoTransaction) (p : String) (ps : List String) (m : Index)
    → index_ids r (p ∷ ps) m ≡ none
    → (index_ids r ps ((p, r) ∷ m) ≡ none)
      ⊎ ((s : MonoTransaction) × (find_id p m ≡ some s) × (s.id ≢ r.id))
unfolding index_ids
index_ids-none r p ps m h = elim (Option-cases (find_id p m)) [
  | inl e ↦ inl (ground arith)
  | inr (q, e) ↦ elim (Bool-cases (q.id == r.id)) [
    | inl same ↦ inl (ground arith)
    | inr other ↦ inr (q, e, ground arith)
  ]
]

-- Registering a row keeps what the ids find, as far as its number goes, and adds the row's own ids.
index_ids-Owns :
    (r : MonoTransaction) (ps : List String) (m n : Index)
    → index_ids r ps m ≡ some n
    → ((q : String) (k : ℕ) → Owns m q k → Owns n q k) × ((q : String) → Memᴰ q ps → Owns n q r.id)
unfolding index_ids
index_ids-Owns r [] m n h =
    (λ q k (s, e, i). (s, ground arith, i), λ q mem. elim (Memᴰ.not-nil mem) [ ])
index_ids-Owns r (p ∷ ps) m n h =
    let (rest, same) = index_ids_step r p ps m n h in
    let (keep, own) = index_ids-Owns r ps ((p, r) ∷ m) n rest in
    (
      λ q k (s, e, i). keep q k (elim (Bool-cases (str_eq p q)) [
        | inl eq ↦ (
          r,
          find_id_at p q r m eq,
          sym (same s (ap (λ (x : String). find_id x m) ((str_eq_iff p q).0 eq) ∙ e)) ∙ i,
        )
        | inr ne ↦ (s, find_id_past p q r m ne ∙ e, i)
      ]),
      λ q mem. elim (Memᴰ.cases_cons mem) [
        | inl e ↦ keep q r.id (rw e (r, find_id_new p r m, refl))
        | inr later ↦ own q later
      ],
    )

-- What an id finds afterwards, it found before, or it is the row and one of its ids.
index_ids-find_id :
    (r : MonoTransaction) (ps : List String) (m n : Index)
    → index_ids r ps m ≡ some n
    → (q : String) (s : MonoTransaction) → find_id q n ≡ some s
    → (find_id q m ≡ some s) ⊎ ((r ≡ s) × Memᴰ q ps)
unfolding index_ids
index_ids-find_id r [] m n h q s e = inl (ground arith)
index_ids-find_id r (p ∷ ps) m n h q s e =
    elim (index_ids-find_id r ps ((p, r) ∷ m) n (index_ids_step r p ps m n h).0 q s e) [
      | inr (same, mem) ↦ inr (same, Memᴰ.tail mem)
      | inl found ↦ elim (find_id_cons p q r s m found) [
        | inl (eq, same) ↦ inr (same, Memᴰ.head (sym eq))
        | inr before ↦ inl before
      ]
    ]

-- A row is refused only for an id that another row has.
index_ids_refused :
    (r : MonoTransaction) (ps : List String) (m : Index)
    → index_ids r ps m ≡ none
    → (q : String) × (s : MonoTransaction) × Memᴰ q ps × (find_id q m ≡ some s) × (s.id ≢ r.id)
unfolding index_ids
index_ids_refused r [] m h = let bad : ⊥ = cc in elim bad [ ]
index_ids_refused r (p ∷ ps) m h = elim (index_ids-none r p ps m h) [
  | inr (s, e, other) ↦ (p, s, Memᴰ.head refl, e, other)
  | inl rest ↦
      let (q, s, mem, e, other) = index_ids_refused r ps ((p, r) ∷ m) rest in
      elim (find_id_cons p q r s m e) [
        | inl (eq, same) ↦ elim (other (ap (λ (x : MonoTransaction). x.id) (sym same))) [ ]
        | inr before ↦ (q, s, Memᴰ.tail mem, before, other)
      ]
]

index_rows_step :
    (r : MonoTransaction) (rows : List MonoTransaction) (m n : Index)
    → index_rows (r ∷ rows) m ≡ some n
    → (j : Index) × (index_ids r (ids_of r) m ≡ some j) × (index_rows rows j ≡ some n)
unfolding index_rows
index_rows_step r rows m n h = elim (Option-cases (index_ids r (ids_of r) m)) [
  | inl e ↦ let bad : ⊥ = ground arith in elim bad [ ]
  | inr (j, e) ↦ (j, e, ground arith)
]

index_rows-none :
    (r : MonoTransaction) (rows : List MonoTransaction) (m : Index)
    → index_rows (r ∷ rows) m ≡ none
    → (index_ids r (ids_of r) m ≡ none)
      ⊎ ((j : Index) × (index_ids r (ids_of r) m ≡ some j) × (index_rows rows j ≡ none))
unfolding index_rows
index_rows-none r rows m h = elim (Option-cases (index_ids r (ids_of r) m)) [
  | inl e ↦ inl e
  | inr (j, e) ↦ inr (j, e, ground arith)
]

pub index_rows-Owns :
    (rows : List MonoTransaction) (m n : Index)
    → index_rows rows m ≡ some n
    → ((q : String) (k : ℕ) → Owns m q k → Owns n q k)
      × ((r : MonoTransaction) (q : String) → Memᴰ r rows → Memᴰ q (ids_of r) → Owns n q r.id)
unfolding index_rows
index_rows-Owns [] m n h =
    (λ q k (s, e, i). (s, ground arith, i), λ r q mem own. elim (Memᴰ.not-nil mem) [ ])
index_rows-Owns (x ∷ rows) m n h =
    let (j, now, rest) = index_rows_step x rows m n h in
    let (kept, own) = index_ids-Owns x (ids_of x) m j now in
    let (keep, later) = index_rows-Owns rows j n rest in
    (
      λ q k o. keep q k (kept q k o),
      λ r q mem i. elim (Memᴰ.cases_cons mem) [
        | inl e ↦ keep q r.id (rw e (own q (rw (sym e) i)))
        | inr there ↦ later r q there i
      ],
    )

pub index_rows-find_id :
    (rows : List MonoTransaction) (m n : Index)
    → index_rows rows m ≡ some n
    → (q : String) (s : MonoTransaction) → find_id q n ≡ some s
    → (find_id q m ≡ some s) ⊎ (Memᴰ s rows × Memᴰ q (ids_of s))
unfolding index_rows
index_rows-find_id [] m n h q s e = inl (ground arith)
index_rows-find_id (x ∷ rows) m n h q s e =
    let (j, now, rest) = index_rows_step x rows m n h in
    elim (index_rows-find_id rows j n rest q s e) [
      | inr (mem, own) ↦ inr (Memᴰ.tail mem, own)
      | inl found ↦ elim (index_ids-find_id x (ids_of x) m j now q s found) [
        | inl before ↦ inl before
        | inr (same, own) ↦ inr (Memᴰ.head (sym same), rw (sym same) own)
      ]
    ]

-- The rows are refused only for two with different numbers that have an id in common.
pub index_rows_refused :
    (rows : List MonoTransaction) (m : Index)
    → index_rows rows m ≡ none
    → (q : String) × (r : MonoTransaction) × (s : MonoTransaction) × Memᴰ r rows
      × Memᴰ q (ids_of r)
      × (s.id ≢ r.id)
      × ((find_id q m ≡ some s) ⊎ (Memᴰ s rows × Memᴰ q (ids_of s)))
unfolding index_rows
index_rows_refused [] m h = let bad : ⊥ = cc in elim bad [ ]
index_rows_refused (x ∷ rows) m h = elim (index_rows-none x rows m h) [
  | inl now ↦
      let (q, s, own, e, other) = index_ids_refused x (ids_of x) m now in
      (q, x, s, Memᴰ.head refl, own, other, inl e)
  | inr (j, now, rest) ↦
      let (q, r, s, mem, own, other, found) = index_rows_refused rows j rest in
      (
        q,
        r,
        s,
        Memᴰ.tail mem,
        own,
        other,
        elim found [
          | inr (there, has) ↦ inr (Memᴰ.tail there, has)
          | inl e ↦ elim (index_ids-find_id x (ids_of x) m j now q s e) [
            | inl before ↦ inl before
            | inr (same, has) ↦ inr (Memᴰ.head (sym same), rw (sym same) has)
          ]
        ],
      )
]
