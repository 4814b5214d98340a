-- ===== src/Mono/Identity/Claims.antt =====
-- What the reconciliation gives: new aliases of stored rows, and transactions under lasting ids.
use mathlib.Core.List.{Memᴰ}
use mytrackr_backend.Prelude.{
  ℕ, ◌≤◌, ◌≡◌, ◌∙◌, sym, ap, refl, ◌⊎◌, inl, inr, true, false, none, some, String, List, [], ◌∷◌,
  ◌++◌, ◌==◌, ==_refl, str_eq, any, All, All-append, All-map, count, count-append, is_some, arith,
  Bool-cases, Option-cases, if_both,
}
use mytrackr_backend.Prelude.Codes.{Codes}
use mytrackr_backend.Mono.Identity.{
  Index, find_id, ids_of, Update, add_alias, Progress, claim, emit, emit_new, Buckets, visit,
  visit_all, fingerprint, match_content,
}
use mytrackr_backend.Mono.Entities.{MonoTransaction, Incoming, Key}
use mytrackr_backend.Mono.Identity.Index.{find_id_cons, find_id_at, find_id_past}
use mytrackr_backend.Mono.Identity.Keys.{IsFiled, match_content_lem}

-- No stored row has the provider id.
abbrev pub IsUnknown : String → List MonoTransaction → Type 0
IsUnknown q rows = (r : MonoTransaction) → Memᴰ r rows → Memᴰ q (ids_of r) → ⊥

-- An update gives a stored row one more alias: the id of a downloaded transaction that no stored row
-- has, with the key of the row.
pub record IsClaim (lower upper : Codes → Codes) (incoming : List Incoming)
    (existing : List MonoTransaction) (u : Update) : Type 0 where
  pub row : MonoTransaction
  pub tx : Incoming
  pub stored : Memᴰ row existing
  pub downloaded : Memᴰ tx incoming
  pub same_id : u.id ≡ row.id
  pub one_more : u.provider_id_aliases ≡ row.provider_id_aliases ++ tx.id ∷ []
  pub key : Key
  pub key_of_tx : fingerprint lower upper tx.content ≡ some key
  pub key_of_row : fingerprint lower upper row.content ≡ some key
  pub was_unknown : IsUnknown tx.id existing

-- A transaction is new, or it is under the id of a stored row that is not deleted.
abbrev pub IsLasting : List MonoTransaction → Incoming → Type 0
IsLasting existing tx =
    IsUnknown tx.id existing
    ⊎ ((r : MonoTransaction) × Memᴰ r existing
        × (r.deleted_at ≡ none)
        × (tx.id ≡ r.mono_transaction_id))

-- A row that is not taken has no update yet.
add_alias-append :
    (r : MonoTransaction) (q : String) (used : List ℕ) (us : List Update)
    → All (λ (u : Update). any (λ k. k == u.id) used ≡ true) us
    → any (λ k. k == r.id) used ≡ false
    → (add_alias r q us
        ≡ us ++ record { id = r.id; provider_id_aliases = r.provider_id_aliases ++ q ∷ [] } ∷ [])
      × (count (λ (u : Update). u.id == r.id) us ≡ 0)
unfolding add_alias
add_alias-append r q used [] h free = (refl, refl)
add_alias-append r q used (u ∷ us) (h, hs) free =
    let (e, c) = add_alias-append r q used us hs free in
    elim (Bool-cases (u.id == r.id)) [
      | inl same ↦
          let eq : u.id ≡ r.id = ground arith in
          let taken = sym (ap (λ (i : ℕ). any (λ k. k == i) used) eq) ∙ h in
          let bad : ⊥ = cc in elim bad [ ]
      | inr other ↦ (rw (other, e) refl, rw other (omega (arith, c)))
    ]

not_deleted : (r : MonoTransaction) → is_some r.deleted_at ≡ false → r.deleted_at ≡ none
not_deleted r live = elim (Option-cases r.deleted_at) [
  | inl e ↦ e
  | inr (t, e) ↦ let bad : ⊥ = ground arith in elim bad [ ]
]

still_unknown :
    (p q : String) (r : MonoTransaction) (m : Index)
    → find_id q ((p, r) ∷ m) ≡ none
    → find_id q m ≡ none
still_unknown p q r m f = elim (Bool-cases (str_eq p q)) [
  | inl same ↦ let at = find_id_at p q r m same in let bad : ⊥ = cc in elim bad [ ]
  | inr other ↦ sym (find_id_past p q r m other) ∙ f
]

taken_too :
    (u : Update) (j : ℕ) (used : List ℕ)
    → any (λ k. k == u.id) used ≡ true
    → any (λ k. k == u.id) (j ∷ used) ≡ true
taken_too u j used h = ground arith

once_more :
    (j i : ℕ) (v : Update) (us : List Update)
    → v.id ≡ i
    → count (λ (u : Update). u.id == j) us ≤ 1
    → count (λ (u : Update). u.id == i) us ≡ 0
    → count (λ (u : Update). u.id == j) (us ++ v ∷ []) ≤ 1
once_more j i v us e h z =
    rw (count-append (λ (u : Update). u.id == j) us (v ∷ [])) (elim (Bool-cases (v.id == j)) [
      | inl same ↦
          let eq : i ≡ j = ground arith in
          let zero_too = sym (ap (λ (k : ℕ). count (λ (u : Update). u.id == k) us) eq) ∙ z in
          rw same (omega (arith, zero_too))
      | inr other ↦ rw other (omega (arith, h))
    ])

module _ (lower upper : Codes → Codes) (incoming : List Incoming) (existing : List MonoTransaction)
    (b : Buckets) (buckets : IsFiled lower upper existing b) where
  pub record IsTrue (p : Progress) : Type 0 where
    pub rows :
        (q : String) (r : MonoTransaction) → find_id q p.by_provider_id ≡ some r → Memᴰ r existing
    pub unknown : (q : String) → find_id q p.by_provider_id ≡ none → IsUnknown q existing
    pub claims : All (IsClaim lower upper incoming existing) p.aliases
    pub taken : All (λ (u : Update). any (λ k. k == u.id) p.used ≡ true) p.aliases
    pub once : (k : ℕ) → count (λ (u : Update). u.id == k) p.aliases ≤ 1
    pub lasting : All (IsLasting existing) p.transactions

  emit-IsTrue :
      (r : MonoTransaction) (tx : Incoming) (p : Progress)
      → Memᴰ r existing
      → IsTrue p
      → IsTrue (emit r tx p)
  emit-IsTrue r tx p mem h =
      if_both IsTrue (is_some r.deleted_at) p _ (λ _. h)
        (λ live. record {
          rows = h.rows;
          unknown = h.unknown;
          claims = h.claims;
          taken = h.taken;
          once = h.once;
          lasting =
              All-append (IsLasting existing) p.transactions _ h.lasting
                (inr (r, mem, not_deleted r live, refl));
        })

  emit_new-IsTrue :
      (tx : Incoming) (p : Progress) → IsUnknown tx.id existing → IsTrue p → IsTrue (emit_new tx p)
  emit_new-IsTrue tx p new h = record {
    rows = h.rows;
    unknown = h.unknown;
    claims = h.claims;
    taken = h.taken;
    once = h.once;
    lasting = All-append (IsLasting existing) p.transactions tx h.lasting (inl new);
  }

  claim-IsTrue :
      (r : MonoTransaction) (tx : Incoming) (p : Progress)
      → Memᴰ tx incoming
      → find_id tx.id p.by_provider_id ≡ none
      → match_content lower upper b p.used tx ≡ some r
      → IsTrue p
      → Memᴰ r existing × IsTrue (claim r tx p)
  claim-IsTrue r tx p mem e m h =
      let (k, of_tx, of_row, stored, free) =
        match_content_lem lower upper existing b p.used tx r buckets m in
      let (appended, none_yet) = add_alias-append r tx.id p.used p.aliases h.taken free in
      let update : Update = record {
        id = r.id;
        provider_id_aliases = r.provider_id_aliases ++ tx.id ∷ [];
      } in
      (
        stored,
        record {
          rows = λ q s f. elim (find_id_cons tx.id q r s p.by_provider_id f) [
            | inl (_, same) ↦ rw (sym same) stored
            | inr before ↦ h.rows q s before
          ];
          unknown = λ q f. h.unknown q (still_unknown tx.id q r p.by_provider_id f);
          claims = rw appended (
              All-append (IsClaim lower upper incoming existing) p.aliases update h.claims (record {
                row = r;
                tx = tx;
                stored = stored;
                downloaded = mem;
                same_id = refl;
                one_more = refl;
                key = k;
                key_of_tx = of_tx;
                key_of_row = of_row;
                was_unknown = h.unknown tx.id e;
              }));
          taken = rw appended (
              All-append (λ (u : Update). any (λ k. k == u.id) (r.id ∷ p.used) ≡ true) p.aliases
                update (All-map (λ u. taken_too u r.id p.used) p.aliases h.taken)
                (rw (==_refl r.id) refl));
          once = λ j. rw appended (once_more j r.id update p.aliases refl (h.once j) none_yet);
          lasting = h.lasting;
        },
      )

  visit-IsTrue :
      (tx : Incoming) (p : Progress)
      → Memᴰ tx incoming
      → IsTrue p
      → IsTrue (visit lower upper b tx p)
  unfolding visit
  visit-IsTrue tx p mem h = elim (Option-cases (find_id tx.id p.by_provider_id)) [
    | inr (r, e) ↦ rw (e, visit) (emit-IsTrue r tx p (h.rows tx.id r e) h)
    | inl e ↦ elim (Option-cases (match_content lower upper b p.used tx)) [
      | inl m ↦ rw (e, m, visit) (emit_new-IsTrue tx p (h.unknown tx.id e) h)
      | inr (r, m) ↦
          let (stored, claimed) = claim-IsTrue r tx p mem e m h in
          rw (e, m, visit) (emit-IsTrue r tx (claim r tx p) stored claimed)
    ]
  ]

  pub visit_all-IsTrue :
      (txs : List Incoming) (p : Progress)
      → ((tx : Incoming) → Memᴰ tx txs → Memᴰ tx incoming)
      → IsTrue p
      → IsTrue (visit_all lower upper b txs p)
  unfolding visit_all
  visit_all-IsTrue [] p sub h = h
  visit_all-IsTrue (tx ∷ txs) p sub h =
      visit_all-IsTrue txs (visit lower upper b tx p) (λ x m. sub x (Memᴰ.tail m))
        (visit-IsTrue tx p (sub tx (Memᴰ.head refl)) h)
