-- ===== src/Finance/Categorization/Done.antt =====
-- The rows that an ingestion and a repair hand to the repository: nothing is left uncategorised.
use mytrackr_backend.Prelude.{
  ℕ, ltb, suc, ◌+◌, ◌≤◌, ap, ◌∙◌, length, count, ◌≡◌, sym, refl, true, ◌&&◌, ◌||◌, not, Option,
  some, String, List, [], ◌∷◌, map, All, if_both, option_both, arith,
}
use mytrackr_backend.Prelude.Codes.{Codes}
use mytrackr_backend.Reports.Treatment.{TransactionDirection}
use mytrackr_backend.Finance.Categorization.{
  apply_ai_prediction, heuristic_fallback, apply_confident, resolve_ai_sub_category, named_category,
  find_category, direction_category,
}
use mytrackr_backend.Finance.Results.{apply_gemini_prediction}
use mytrackr_backend.Finance.Checks.{
  needs_ai_categorization, is_category_direction_compatible, has_sub_category_evidence,
  ai_auto_apply_threshold,
}
use mytrackr_backend.Finance.Entities.{Transaction, Setting}
use mytrackr_backend.Finance.Categorization.Ingest.{
  RawTransactionDto, heuristic_step, later_steps, categorise_stored, categorise_new, find_existing,
  Batch, revisit, reclaim, insert_new, ingest_one, ingest_all, ingest_transactions, same_option,
  repair_category, link, repair_orphaned_transactions,
}
use mytrackr_backend.Finance.Categorization.Steps.{IsDone, apply_gemini_prediction-IsDone}

-- The last step leaves nothing uncategorised.
heuristic_step-IsDone :
    (e : Setting) (d : TransactionDirection) (tx : Transaction) → IsDone (heuristic_step e d tx)
unfolding heuristic_step heuristic_fallback
heuristic_step-IsDone e d tx =
    if_both IsDone tx.is_categorised tx (heuristic_fallback e d tx) (λ h. h) (λ _. refl)

repair_category-IsDone : (e : Setting) (tx : Transaction) → IsDone (repair_category e tx)
unfolding repair_category
repair_category-IsDone e tx =
    if_both IsDone tx.is_categorised _ _ (λ h. h) (λ _. heuristic_step-IsDone e tx.direction _)

-- No step of a repair moves a row to another business.
abbrev InBusiness : Option ℕ → Transaction → Type 0
InBusiness b tx = tx.business ≡ b

apply_confident-business :
    (e : Setting) (c : String) (text : Codes) (tx : Transaction) (b : Option ℕ)
    → InBusiness b tx
    → InBusiness b (apply_confident e c text tx)
unfolding apply_confident
apply_confident-business e c text tx b h =
    option_both (InBusiness b) (resolve_ai_sub_category c e.sub_categories) _ _ h (λ s _.
      if_both (InBusiness b) (not (is_category_direction_compatible tx.direction s.category.type)) _
        _ (λ _. h)
        (λ _.
          if_both (InBusiness b) (not (has_sub_category_evidence s.name text)) _ _ (λ _. h)
            (λ _. h)))

apply_ai_prediction-business :
    (e : Setting) (text : Codes) (tx : Transaction) (b : Option ℕ)
    → InBusiness b tx
    → InBusiness b (apply_ai_prediction e text tx)
unfolding apply_ai_prediction
apply_ai_prediction-business e text tx b h =
    if_both (InBusiness b) (not (needs_ai_categorization tx)) _ _ (λ _. h)
      (λ _. option_both (InBusiness b) (named_category (e.predict text)) _ _ h (λ (c, confidence) _.
        if_both (InBusiness b) (ltb confidence ai_auto_apply_threshold) _ _ (λ _. h)
          (λ _. apply_confident-business e c text tx b h)))

heuristic_step-business :
    (e : Setting) (d : TransactionDirection) (tx : Transaction) (b : Option ℕ)
    → InBusiness b tx
    → InBusiness b (heuristic_step e d tx)
unfolding heuristic_step heuristic_fallback
heuristic_step-business e d tx b h =
    if_both (InBusiness b) tx.is_categorised _ _ (λ _. h)
      (λ _.
        option_both (InBusiness b) (find_category (direction_category d) e.categories) _ _ h
          (λ c _. h))

repair_category-business :
    (e : Setting) (tx : Transaction) → (repair_category e tx).business ≡ tx.business
unfolding repair_category
repair_category-business e tx =
    if_both (InBusiness tx.business) tx.is_categorised _ _ (λ _. refl)
      (λ _.
        heuristic_step-business e tx.direction _ tx.business
          (apply_ai_prediction-business e _ tx tx.business refl))

zero_first : (n : ℕ) → 0 + n ≡ n
zero_first n = omega arith

suc_first : (m n : ℕ) → suc m + n ≡ m + suc n
suc_first m n = omega arith

-- What a run that categorises collects: categorised rows, the new ones counted, at most one for each
-- transaction that it is given
record IsDoneBatch (given : ℕ) (b : Batch) : Type 0 where
  pub inserted : All IsDone b.to_insert
  pub updated : All IsDone b.to_update
  pub counted : b.count ≡ length b.to_insert
  pub at_most : length b.to_insert + length b.to_update ≤ given

ingest_one-IsDoneBatch :
    (e : Setting) (business user : Option ℕ) (stored : List Transaction) (d : RawTransactionDto)
    (n : ℕ) (b : Batch)
    → IsDoneBatch n b
    → IsDoneBatch (suc n) (ingest_one e true business user stored d b)
unfolding ingest_one insert_new revisit reclaim categorise_new categorise_stored later_steps
ingest_one-IsDoneBatch e business user stored d n b h =
    option_both (IsDoneBatch (suc n)) (find_existing d.external_id stored) _ _
      (record {
        inserted = (heuristic_step-IsDone e d.direction _, h.inserted);
        updated = h.updated;
        counted = omega (arith, h.counted);
        at_most = omega (arith, h.at_most);
      })
      (λ tx found.
        if_both (IsDoneBatch (suc n)) (same_option tx.business business) _ _
          (λ _.
            if_both (IsDoneBatch (suc n))
              (not tx.is_categorised || (true && needs_ai_categorization tx)) _ _
              (λ _. record {
                inserted = h.inserted;
                updated = (heuristic_step-IsDone e d.direction _, h.updated);
                counted = h.counted;
                at_most = omega (arith, h.at_most);
              })
              (λ _. record {
                inserted = h.inserted;
                updated = h.updated;
                counted = h.counted;
                at_most = omega (arith, h.at_most);
              }))
          (λ _. record {
            inserted = h.inserted;
            updated = (heuristic_step-IsDone e d.direction _, h.updated);
            counted = h.counted;
            at_most = omega (arith, h.at_most);
          }))

ingest_all-IsDoneBatch :
    (e : Setting) (business user : Option ℕ) (stored : List Transaction)
    (ds : List RawTransactionDto) (n : ℕ) (b : Batch)
    → IsDoneBatch n b
    → IsDoneBatch (length ds + n) (ingest_all e true business user stored ds b)
unfolding ingest_all
ingest_all-IsDoneBatch e business user stored [] n b h = rw (zero_first n) h
ingest_all-IsDoneBatch e business user stored (d ∷ ds) n b h = rw (suc_first (length ds) n) (
    ingest_all-IsDoneBatch e business user stored ds (suc n)
      (ingest_one e true business user stored d b)
      (ingest_one-IsDoneBatch e business user stored d n b h))

gemini-IsDone :
    (e : Setting) (txs : List Transaction)
    → All IsDone txs
    → All IsDone (map (apply_gemini_prediction e) txs)
      × (length (map (apply_gemini_prediction e) txs) ≡ length txs)
gemini-IsDone e [] h = (tt, refl)
gemini-IsDone e (tx ∷ txs) (h, hs) =
    let (rest, len) = gemini-IsDone e txs hs in
    ((apply_gemini_prediction-IsDone e tx h, rest), ap suc len)

-- An ingestion that categorises leaves none of its rows uncategorised, inserted or updated, whatever
-- the rules and the engines do; it returns the number of rows that it inserts, and it writes at most
-- one row for each transaction that it is given.
pub ingest_transactions_categorises :
    (e : Setting) (business user : Option ℕ) (stored : List Transaction)
    (ds : List RawTransactionDto)
    → let b = ingest_transactions e true business user stored ds in
      All (λ (tx : Transaction). tx.is_categorised ≡ true) b.to_insert
      × All (λ (tx : Transaction). tx.is_categorised ≡ true) b.to_update
      × (b.count ≡ length b.to_insert)
      × (length b.to_insert + length b.to_update ≤ length ds)
unfolding ingest_transactions
ingest_transactions_categorises e business user stored ds =
    let b : Batch = record { to_insert = []; to_update = []; count = 0 } in
    let h =
      ingest_all-IsDoneBatch e business user stored ds 0 b
        (record { inserted = tt; updated = tt; counted = refl; at_most = omega arith }) in
    let (ins, li) = gemini-IsDone e _ h.inserted in
    let (upd, lu) = gemini-IsDone e _ h.updated in
    (ins, upd, h.counted ∙ sym li, omega (arith, h.at_most, li, lu))

-- A repair leaves every row of its list categorised and linked to the business, and counts those
-- that were not.
pub repair_orphaned_transactions_lem :
    (e : Setting) (k : ℕ) (txs : List Transaction)
    → let r = repair_orphaned_transactions e k txs in
      All (λ (tx : Transaction). (tx.is_categorised ≡ true) × (tx.business ≡ some k)) r.rows
      × (length r.rows ≡ length txs)
      × (r.categorised ≡ count (λ tx. not tx.is_categorised) txs)
unfolding repair_orphaned_transactions
repair_orphaned_transactions_lem e k [] = (tt, refl, refl)
repair_orphaned_transactions_lem e k (tx ∷ txs) =
    let (rows, len, done) = repair_orphaned_transactions_lem e k txs in
    (
      ((repair_category-IsDone e (link k tx), repair_category-business e (link k tx)), rows),
      ap suc len,
      ground (arith, done),
    )
