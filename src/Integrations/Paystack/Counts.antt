-- ===== src/Integrations/Paystack/Counts.antt =====
-- What is counted in an import, which throws nothing where no row is deleted.
use mytrackr_backend.Prelude.{
  ℕ, ◌+◌, ◌≡◌, refl, false, List, [], ◌∷◌, arith, length, ltb, count, All, All-append, Bool-cases,
  inl, inr, if_both, if◌then◌else◌,
}
use mytrackr_backend.Integrations.Ledger.{
  Transaction, TransactionDto, Saved, present, added, refused, is_refused, has_row,
  has_row-has_live, create_row, IsLive, save_new, save_present, save_business_finance_transaction,
}
use mytrackr_backend.Integrations.Paystack.{
  Charge, Refund, charge_sale, charge_fee, fee_saved, refund_row, Progress, counted, save_fee,
  is_success, import_charge, import_charges, import_refund, import_refunds, import_all,
}

-- How many were handled
abbrev pub handled : Progress → ℕ
handled p = p.imported + p.skipped

abbrev pub AllLive : List Transaction → Type 0
AllLive = All IsLive

-- Nothing has thrown, and no row is deleted.
abbrev pub IsSmooth : Progress → Type 0
IsSmooth p = (p.has_thrown ≡ false) × AllLive p.ledger

-- A save that does not throw, and leaves no row deleted
abbrev IsSaved : Saved × List Transaction → Type 0
IsSaved r = (is_refused r.0 ≡ false) × AllLive r.1

-- Each row that is counted is counted once.
counted-counts :
    (r : Saved × List Transaction) (p : Progress)
    → is_refused r.0 ≡ false
    → handled (counted r p) ≡ handled p + 1
counted-counts (added, ts) p h = omega arith
counted-counts (present, ts) p h = omega arith
counted-counts (refused, ts) p h = cc

counted-IsSmooth :
    (r : Saved × List Transaction) (p : Progress)
    → p.has_thrown ≡ false
    → IsSaved r
    → IsSmooth (counted r p)
counted-IsSmooth (added, ts) p h (ok, live) = (h, live)
counted-IsSmooth (present, ts) p h (ok, live) = (h, live)
counted-IsSmooth (refused, ts) p h (ok, live) = let bad : ⊥ = cc in absurd bad

fee_saved-IsSaved : (r : Saved × List Transaction) → IsSaved r → IsSaved (fee_saved r)
fee_saved-IsSaved (added, ts) h = h
fee_saved-IsSaved (present, ts) (ok, live) = (refl, live)
fee_saved-IsSaved (refused, ts) h = h

-- An import begins.
abbrev pub begin : List Transaction → Progress
begin ts = record { imported = 0; skipped = 0; ledger = ts; has_thrown = false }

module _ (business user : ℕ) where
  abbrev pub saved : TransactionDto → List Transaction → Saved × List Transaction
  saved dto ts = save_business_finance_transaction business user dto ts

  saved-IsSaved :
      (dto : TransactionDto) (ts : List Transaction) → AllLive ts → IsSaved (saved dto ts)
  saved-IsSaved dto ts live = elim (Bool-cases (has_row dto.external_id ts)) [
    | inl there ↦
        rw (save_present business user dto ts (has_row-has_live dto.external_id ts live there))
          (refl, live)
    | inr new ↦
        rw (save_new business user dto ts new)
          (refl, All-append IsLive ts (create_row business user dto) live refl)
  ]

  save_fee-IsSaved :
      (c : Charge) (r : Saved × List Transaction) → IsSaved r → IsSaved (save_fee business user c r)
  save_fee-IsSaved c (present, ts) h = h
  save_fee-IsSaved c (refused, ts) h = h
  save_fee-IsSaved c (added, ts) (ok, live) =
      if_both IsSaved (ltb 0 c.fees) _ _
        (λ _. fee_saved-IsSaved (saved (charge_fee c) ts) (saved-IsSaved (charge_fee c) ts live))
        (λ _. (ok, live))

  abbrev pub charge_rows : Charge → List Transaction → Saved × List Transaction
  charge_rows c ts = save_fee business user c (saved (charge_sale c) ts)

  charge_rows-IsSaved :
      (c : Charge) (ts : List Transaction) → AllLive ts → IsSaved (charge_rows c ts)
  charge_rows-IsSaved c ts live =
      save_fee-IsSaved c (saved (charge_sale c) ts) (saved-IsSaved (charge_sale c) ts live)

  pub import_charge-IsSmooth :
      (c : Charge) (p : Progress) → IsSmooth p → IsSmooth (import_charge business user c p)
  unfolding import_charge
  import_charge-IsSmooth c p (ok, live) =
      if_both IsSmooth (is_success c) _ _
        (λ _. counted-IsSmooth (charge_rows c p.ledger) p ok (charge_rows-IsSaved c p.ledger live))
        (λ _. (ok, live))

  -- The loops go on while nothing has thrown.
  pub import_charges_on :
      (c : Charge) (cs : List Charge) (p : Progress)
      → IsSmooth p
      → import_charges business user (c ∷ cs) p
        ≡ import_charges business user cs (import_charge business user c p)
  unfolding import_charges
  import_charges_on c cs p (ok, live) = rw ok refl

  pub import_charges-IsSmooth :
      (cs : List Charge) (p : Progress) → IsSmooth p → IsSmooth (import_charges business user cs p)
  unfolding import_charges
  import_charges-IsSmooth [] p h = h
  import_charges-IsSmooth (c ∷ cs) p h =
      rw (import_charges_on c cs p h) (
        import_charges-IsSmooth cs (import_charge business user c p) (import_charge-IsSmooth c p h))

  pub import_refund-IsSmooth :
      (r : Refund) (p : Progress) → IsSmooth p → IsSmooth (import_refund business user r p)
  unfolding import_refund
  import_refund-IsSmooth r p (ok, live) =
      counted-IsSmooth (saved (refund_row r) p.ledger) p ok
        (saved-IsSaved (refund_row r) p.ledger live)

  pub import_refunds_on :
      (r : Refund) (rs : List Refund) (p : Progress)
      → IsSmooth p
      → import_refunds business user (r ∷ rs) p
        ≡ import_refunds business user rs (import_refund business user r p)
  unfolding import_refunds
  import_refunds_on r rs p (ok, live) = rw ok refl

  import_refunds-IsSmooth :
      (rs : List Refund) (p : Progress) → IsSmooth p → IsSmooth (import_refunds business user rs p)
  unfolding import_refunds
  import_refunds-IsSmooth [] p h = h
  import_refunds-IsSmooth (r ∷ rs) p h =
      rw (import_refunds_on r rs p h) (
        import_refunds-IsSmooth rs (import_refund business user r p) (import_refund-IsSmooth r p h))

  import_charge-handled :
      (c : Charge) (p : Progress)
      → IsSmooth p
      → handled (import_charge business user c p) ≡ handled p + (if is_success c then 1 else 0)
  unfolding import_charge
  import_charge-handled c p (ok, live) = elim (Bool-cases (is_success c)) [
    | inl good ↦
        rw good (counted-counts (charge_rows c p.ledger) p (charge_rows-IsSaved c p.ledger live).0)
    | inr bad ↦ rw bad (omega arith)
  ]

  import_charges-handled :
      (cs : List Charge) (p : Progress)
      → IsSmooth p
      → handled (import_charges business user cs p) ≡ handled p + count is_success cs
  unfolding import_charges
  import_charges-handled [] p h = omega arith
  import_charges-handled (c ∷ cs) p h = rw (import_charges_on c cs p h) (
      omega (
        arith,
        import_charges-handled cs (import_charge business user c p) (import_charge-IsSmooth c p h),
        import_charge-handled c p h,
      ))

  import_refund-handled :
      (r : Refund) (p : Progress)
      → IsSmooth p
      → handled (import_refund business user r p) ≡ handled p + 1
  unfolding import_refund
  import_refund-handled r p (ok, live) =
      counted-counts (saved (refund_row r) p.ledger) p
        (saved-IsSaved (refund_row r) p.ledger live).0

  import_refunds-handled :
      (rs : List Refund) (p : Progress)
      → IsSmooth p
      → handled (import_refunds business user rs p) ≡ handled p + length rs
  unfolding import_refunds
  import_refunds-handled [] p h = omega arith
  import_refunds-handled (r ∷ rs) p h = rw (import_refunds_on r rs p h) (
      omega (
        arith,
        import_refunds-handled rs (import_refund business user r p) (import_refund-IsSmooth r p h),
        import_refund-handled r p h,
      ))

  -- An import of a ledger without deleted rows throws nothing.
  pub import_all-IsSmooth :
      (cs : List Charge) (rs : List Refund) (ts : List Transaction)
      → AllLive ts
      → IsSmooth (import_all business user cs rs ts)
  unfolding import_all
  import_all-IsSmooth cs rs ts live =
      import_refunds-IsSmooth rs (import_charges business user cs (begin ts))
        (import_charges-IsSmooth cs (begin ts) (refl, live))

  pub import_all-handled :
      (cs : List Charge) (rs : List Refund) (ts : List Transaction)
      → AllLive ts
      → handled (import_all business user cs rs ts) ≡ count is_success cs + length rs
  unfolding import_all
  import_all-handled cs rs ts live = omega (
    arith,
    import_refunds-handled rs (import_charges business user cs (begin ts))
        (import_charges-IsSmooth cs (begin ts) (refl, live)),
    import_charges-handled cs (begin ts) (refl, live),
  )
