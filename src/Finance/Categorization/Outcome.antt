-- ===== src/Finance/Categorization/Outcome.antt =====
-- The rows that an ingestion hands to the repository, against the direction of the money.
use mytrackr_backend.Prelude.{
  ℕ, ◌≡◌, sym, Bool, true, ◌&&◌, ◌||◌, not, Option, none, some, String, List, [], ◌∷◌, map, All,
  Option-cases, Bool-cases, inl, inr, if_both, option_both, if◌then◌else◌, arith,
}
use mytrackr_backend.Reports.Treatment.{TransactionDirection}
use mytrackr_backend.Finance.Categorization.{
  apply_rules, apply_ai_prediction, mono_default, heuristic_fallback,
}
use mytrackr_backend.Finance.Results.{apply_gemini_prediction}
use mytrackr_backend.Finance.Checks.{get_categorization_text, needs_ai_categorization}
use mytrackr_backend.Finance.Entities.{
  Transaction, CategorySource, mono, ai, rule, heuristic, manual, Setting,
}
use mytrackr_backend.Finance.Categorization.Ingest.{
  RawTransactionDto, preserve_manual, ai_step, heuristic_step, later_steps, rule_step,
  categorise_stored, categorise_new, find_external, find_existing, has_external_id, Batch, create,
  revisit, reclaim, insert_new, ingest_one, ingest_all, ingest_transactions, same_option,
}
use mytrackr_backend.Finance.Categorization.Steps.{
  Fits, apply_rules-Fits, apply_ai_prediction-Fits, mono_default-Fits, heuristic_fallback-Fits,
  apply_gemini_prediction-Fits,
}

heuristic_step-Fits :
    (e : Setting) (d : TransactionDirection) (tx : Transaction)
    → Fits tx
    → Fits (heuristic_step e d tx)
unfolding heuristic_step
heuristic_step-Fits e d tx h =
    if_both Fits tx.is_categorised tx (heuristic_fallback e d tx) (λ _. h)
      (λ _. heuristic_fallback-Fits e d tx)

later_steps-Fits :
    (e : Setting) (d : RawTransactionDto) (tx : Transaction) → Fits tx → Fits (later_steps e d tx)
unfolding later_steps ai_step
later_steps-Fits e d tx h =
    let text = get_categorization_text d.name d.description in
    heuristic_step-Fits e d.direction (mono_default d.mono_category (ai_step e text tx)) (
      mono_default-Fits d.mono_category (ai_step e text tx) (
        if_both Fits tx.is_categorised tx (apply_ai_prediction e text tx) (λ _. h)
          (λ _. apply_ai_prediction-Fits e text tx h)))

preserve_manual-of :
    (s : CategorySource) (tx : Transaction)
    → tx.category_source ≡ some s
    → Fits tx
    → Fits (preserve_manual tx)
unfolding preserve_manual
preserve_manual-of mono tx e h = rw (e, preserve_manual) h
preserve_manual-of ai tx e h = rw (e, preserve_manual) h
preserve_manual-of rule tx e h = rw (e, preserve_manual) h
preserve_manual-of heuristic tx e h = rw (e, preserve_manual) h
preserve_manual-of manual tx e h =
    rw (e, preserve_manual)
      (option_both Fits tx.manual_category tx
        (λ (c : String). record tx {
          category = some c;
          sub_category = tx.manual_sub_category;
          is_categorised = true;
        })
        h (λ c _ k. let bad : ⊥ = cc in elim bad [ ]))

preserve_manual-Fits : (tx : Transaction) → Fits tx → Fits (preserve_manual tx)
unfolding preserve_manual
preserve_manual-Fits tx h = elim (Option-cases tx.category_source) [
  | inl e ↦ rw (e, preserve_manual) h
  | inr (s, e) ↦ preserve_manual-of s tx e h
]

categorise_new-Fits :
    (e : Setting) (auto : Bool) (d : RawTransactionDto) (tx : Transaction)
    → Fits tx
    → Fits (if auto then categorise_new e d tx else tx)
unfolding categorise_new
categorise_new-Fits e auto d tx h =
    if_both Fits auto (categorise_new e d tx) tx
      (λ _. later_steps-Fits e d (apply_rules e e.rules tx) (apply_rules-Fits e e.rules tx h))
      (λ _. h)

categorise_stored-Fits :
    (e : Setting) (auto : Bool) (d : RawTransactionDto) (tx : Transaction)
    → Fits tx
    → Fits (if auto then categorise_stored e d tx else tx)
unfolding categorise_stored rule_step
categorise_stored-Fits e auto d tx h =
    let kept = preserve_manual tx in
    if_both Fits auto (categorise_stored e d tx) tx
      (λ _. later_steps-Fits e d (rule_step e kept) (
        if_both Fits kept.is_categorised kept (apply_rules e e.rules kept)
          (λ _. preserve_manual-Fits tx h)
          (λ _. apply_rules-Fits e e.rules kept (preserve_manual-Fits tx h))))
      (λ _. h)

-- A row that is found is one of the table.
find_external-All :
    (P : Transaction → Type 0) (x : String) (txs : List Transaction) (tx : Transaction)
    → All P txs
    → find_external x txs ≡ some tx
    → P tx
unfolding find_external
find_external-All P x [] tx h e = let bad : ⊥ = cc in elim bad [ ]
find_external-All P x (y ∷ txs) tx (h, hs) e = elim (Option-cases (find_external x txs)) [
  | inr (later, k) ↦ find_external-All P x txs tx hs (ground arith)
  | inl k ↦ elim (Bool-cases (has_external_id x y)) [
    | inl same ↦ let here : y ≡ tx = ground arith in rw (sym here) h
    | inr other ↦ let bad : ⊥ = ground arith in elim bad [ ]
  ]
]

find_existing-All :
    (P : Transaction → Type 0) (o : Option String) (txs : List Transaction) (tx : Transaction)
    → All P txs
    → find_existing o txs ≡ some tx
    → P tx
find_existing-All P none txs tx h e = let bad : ⊥ = cc in elim bad [ ]
find_existing-All P (some x) txs tx h e = find_external-All P x txs tx h (ground arith)

abbrev FitBatch : Batch → Type 0
FitBatch b = All Fits b.to_insert × All Fits b.to_update

ingest_one-Fits :
    (e : Setting) (auto : Bool) (business user : Option ℕ) (stored : List Transaction)
    (d : RawTransactionDto) (b : Batch)
    → All Fits stored
    → FitBatch b
    → FitBatch (ingest_one e auto business user stored d b)
unfolding ingest_one insert_new revisit reclaim find_external
ingest_one-Fits e auto business user stored d b hs (ins, upd) =
    option_both FitBatch (find_existing d.external_id stored) _ _
      (
        (
          categorise_new-Fits e auto d (create business user d)
              (λ k. let bad : ⊥ = cc in elim bad [ ]),
          ins,
        ),
        upd,
      )
      (λ tx found.
        let fits = find_existing-All Fits d.external_id stored tx hs found in
        if_both FitBatch (same_option tx.business business) _ _
          (λ _.
            if_both FitBatch (not tx.is_categorised || (auto && needs_ai_categorization tx)) _ _
              (λ _. (ins, (categorise_stored-Fits e auto d tx fits, upd))) (λ _. (ins, upd)))
          (λ _. (ins, (categorise_new-Fits e auto d _ fits, upd))))

ingest_all-Fits :
    (e : Setting) (auto : Bool) (business user : Option ℕ) (stored : List Transaction)
    (ds : List RawTransactionDto) (b : Batch)
    → All Fits stored
    → FitBatch b
    → FitBatch (ingest_all e auto business user stored ds b)
unfolding ingest_all
ingest_all-Fits e auto business user stored [] b hs h = h
ingest_all-Fits e auto business user stored (d ∷ ds) b hs h =
    ingest_all-Fits e auto business user stored ds (ingest_one e auto business user stored d b) hs
      (ingest_one-Fits e auto business user stored d b hs h)

gemini-Fits :
    (e : Setting) (txs : List Transaction)
    → All Fits txs
    → All Fits (map (apply_gemini_prediction e) txs)
gemini-Fits e [] h = tt
gemini-Fits e (tx ∷ txs) (h, hs) = (apply_gemini_prediction-Fits e tx h, gemini-Fits e txs hs)

-- An ingestion keeps it that a transaction which an engine categorised has a category that the
-- direction of its money allows: if the stored rows are so, then so are the rows that it inserts and
-- updates.
pub ingest_transactions-Fits :
    (e : Setting) (auto : Bool) (business user : Option ℕ) (stored : List Transaction)
    (ds : List RawTransactionDto)
    → All Fits stored
    → let b = ingest_transactions e auto business user stored ds in
      All Fits b.to_insert × All Fits b.to_update
unfolding ingest_transactions
ingest_transactions-Fits e auto business user stored ds hs =
    let b : Batch = record { to_insert = []; to_update = []; count = 0 } in
    let (ins, upd) = ingest_all-Fits e auto business user stored ds b hs (tt, tt) in
    if_both FitBatch auto _ _ (λ _. (gemini-Fits e _ ins, gemini-Fits e _ upd)) (λ _. (ins, upd))
