-- ===== src/Integrations/Paystack/Import.antt =====
-- What is imported is imported once.
use mathlib.Core.Path.{subst}
use mytrackr_backend.Prelude.{
  sym, ℕ, ◌+◌, ◌≡◌, refl, ◌∙◌, ap, Bool, true, false, ◌||◌, List, [], ◌∷◌, arith, length, count,
  ltb, All, All-map, Bool-cases, inl, inr, if_both,
}
use mytrackr_backend.Integrations.Ledger.{
  revenue, ExternalId, of_charge, of_refund, same_id, same_id_refl, Transaction, TransactionDto,
  has_row, has_row-has_live, save_present, Saved, present, added, refused, has_row-append,
  create_row, save_rows,
}
use mytrackr_backend.Integrations.Paystack.{
  Charge, Refund, key_of, charge_sale, charge_fee, refund_row, fee_saved, Progress, counted,
  save_fee, is_success, import_charge, import_charges, import_refund, import_refunds, import_all,
}
use mytrackr_backend.Integrations.Paystack.Counts.{
  handled, AllLive, IsSmooth, begin, saved, charge_rows, import_charge-IsSmooth, import_charges_on,
  import_charges-IsSmooth, import_refund-IsSmooth, import_refunds_on, import_all-IsSmooth,
  import_all-handled,
}

-- A save keeps the rows that are there, and leaves one with its id.
abbrev pub KeepsRows : List Transaction → List Transaction → Type 0
KeepsRows ts us = (x : ExternalId) → has_row x ts ≡ true → has_row x us ≡ true

or_true : (b c : Bool) → c ≡ true → (b || c) ≡ true
or_true b c h = ground arith

module _ (business user : ℕ) where
  saved-KeepsRows :
      (dto : TransactionDto) (ts : List Transaction) → KeepsRows ts (saved business user dto ts).1
  saved-KeepsRows dto ts x h = rw (save_rows business user dto ts) (
      if_both (λ us. has_row x us ≡ true) (has_row dto.external_id ts) _ _ (λ _. h)
        (λ _.
          has_row-append x ts (create_row business user dto)
          ∙ or_true (same_id dto.external_id x) (has_row x ts) h))

  saved-has_row :
      (dto : TransactionDto) (ts : List Transaction)
      → has_row dto.external_id (saved business user dto ts).1 ≡ true
  saved-has_row dto ts = rw (save_rows business user dto ts) (
      if_both (λ us. has_row dto.external_id us ≡ true) (has_row dto.external_id ts) _ _ (λ h. h)
        (λ _.
          rw
            (
              has_row-append dto.external_id ts (create_row business user dto),
              same_id_refl dto.external_id,
            )
            refl))

  saved_again :
      (dto : TransactionDto) (ts : List Transaction)
      → AllLive ts
      → has_row dto.external_id ts ≡ true
      → saved business user dto ts ≡ (present, ts)
  saved_again dto ts live h =
      save_present business user dto ts (has_row-has_live dto.external_id ts live h)

  fee_saved-KeepsRows :
      (ts : List Transaction) (r : Saved × List Transaction)
      → KeepsRows ts r.1
      → KeepsRows ts (fee_saved r).1
  fee_saved-KeepsRows ts (added, us) h = h
  fee_saved-KeepsRows ts (present, us) h = h
  fee_saved-KeepsRows ts (refused, us) h = h

  -- The rows of a charge with the fee
  save_fee-KeepsRows :
      (c : Charge) (r : Saved × List Transaction) → KeepsRows r.1 (save_fee business user c r).1
  save_fee-KeepsRows c (present, ts) x h = h
  save_fee-KeepsRows c (refused, ts) x h = h
  save_fee-KeepsRows c (added, ts) x h =
      if_both (λ (r : Saved × List Transaction). has_row x r.1 ≡ true) (ltb 0 c.fees) _ _
        (λ _.
          fee_saved-KeepsRows ts (saved business user (charge_fee c) ts)
            (saved-KeepsRows (charge_fee c) ts) x h)
        (λ _. h)

  counted-ledger : (r : Saved × List Transaction) (p : Progress) → (counted r p).ledger ≡ r.1
  counted-ledger (added, ts) p = refl
  counted-ledger (present, ts) p = refl
  counted-ledger (refused, ts) p = refl

  -- A charge is done when it is no success, or has its row.
  abbrev pub IsDone : List Transaction → Charge → Type 0
  IsDone ts c =
      is_success c ≡ true → has_row (of_charge (key_of c.id c.reference) revenue) ts ≡ true

  import_charge-KeepsRows :
      (c : Charge) (p : Progress) → KeepsRows p.ledger (import_charge business user c p).ledger
  unfolding import_charge
  import_charge-KeepsRows c p x h =
      if_both (λ (q : Progress). has_row x q.ledger ≡ true) (is_success c) _ _
        (λ _. rw (counted-ledger (charge_rows business user c p.ledger) p) (
          save_fee-KeepsRows c (saved business user (charge_sale c) p.ledger) x
            (saved-KeepsRows (charge_sale c) p.ledger x h)))
        (λ _. h)

  import_charge-IsDone :
      (c : Charge) (p : Progress) → IsDone (import_charge business user c p).ledger c
  unfolding import_charge
  import_charge-IsDone c p ok = rw ok (
      rw (counted-ledger (charge_rows business user c p.ledger) p) (
        save_fee-KeepsRows c (saved business user (charge_sale c) p.ledger)
          (of_charge (key_of c.id c.reference) revenue) (saved-has_row (charge_sale c) p.ledger)))

  import_charges-KeepsRows :
      (cs : List Charge) (p : Progress)
      → KeepsRows p.ledger (import_charges business user cs p).ledger
  unfolding import_charges
  import_charges-KeepsRows [] p x h = h
  import_charges-KeepsRows (c ∷ cs) p x h =
      if_both (λ (q : Progress). has_row x q.ledger ≡ true) p.has_thrown _ _ (λ _. h)
        (λ _.
          import_charges-KeepsRows cs (import_charge business user c p) x
            (import_charge-KeepsRows c p x h))

  import_charges-IsDone :
      (cs : List Charge) (p : Progress)
      → IsSmooth p
      → All (IsDone (import_charges business user cs p).ledger) cs
  import_charges-IsDone [] p h = tt
  import_charges-IsDone (c ∷ cs) p h =
      subst (λ (q : Progress). All (IsDone q.ledger) (c ∷ cs))
        (sym (import_charges_on business user c cs p h))
        (
          λ ok.
              import_charges-KeepsRows cs (import_charge business user c p)
                (of_charge (key_of c.id c.reference) revenue) (import_charge-IsDone c p ok),
          import_charges-IsDone cs (import_charge business user c p)
              (import_charge-IsSmooth business user c p h),
        )

  abbrev pub HasRefund : List Transaction → Refund → Type 0
  HasRefund ts r = has_row (of_refund (key_of r.id r.reference)) ts ≡ true

  import_refund-KeepsRows :
      (r : Refund) (p : Progress) → KeepsRows p.ledger (import_refund business user r p).ledger
  unfolding import_refund
  import_refund-KeepsRows r p x h =
      rw (counted-ledger (saved business user (refund_row r) p.ledger) p)
        (saved-KeepsRows (refund_row r) p.ledger x h)

  import_refunds-KeepsRows :
      (rs : List Refund) (p : Progress)
      → KeepsRows p.ledger (import_refunds business user rs p).ledger
  unfolding import_refunds
  import_refunds-KeepsRows [] p x h = h
  import_refunds-KeepsRows (r ∷ rs) p x h =
      if_both (λ (q : Progress). has_row x q.ledger ≡ true) p.has_thrown _ _ (λ _. h)
        (λ _.
          import_refunds-KeepsRows rs (import_refund business user r p) x
            (import_refund-KeepsRows r p x h))

  import_refund-HasRefund :
      (r : Refund) (p : Progress) → HasRefund (import_refund business user r p).ledger r
  unfolding import_refund
  import_refund-HasRefund r p =
      rw (counted-ledger (saved business user (refund_row r) p.ledger) p)
        (saved-has_row (refund_row r) p.ledger)

  import_refunds-HasRefund :
      (rs : List Refund) (p : Progress)
      → IsSmooth p
      → All (HasRefund (import_refunds business user rs p).ledger) rs
  import_refunds-HasRefund [] p h = tt
  import_refunds-HasRefund (r ∷ rs) p h =
      subst (λ (q : Progress). All (HasRefund q.ledger) (r ∷ rs))
        (sym (import_refunds_on business user r rs p h))
        (
          import_refunds-KeepsRows rs (import_refund business user r p)
              (of_refund (key_of r.id r.reference)) (import_refund-HasRefund r p),
          import_refunds-HasRefund rs (import_refund business user r p)
              (import_refund-IsSmooth business user r p h),
        )

  -- Progress by skipping alone
  abbrev skipping : ℕ → Progress → Progress
  skipping n p = record p { skipped = p.skipped + n }

  import_charge_again :
      (c : Charge) (p : Progress)
      → AllLive p.ledger
      → IsDone p.ledger c
      → import_charge business user c p ≡ skipping (count is_success (c ∷ [])) p
  unfolding import_charge
  import_charge_again c p live h = elim (Bool-cases (is_success c)) [
    | inl ok ↦ rw ok (rw (saved_again (charge_sale c) p.ledger live (h ok)) refl)
    | inr bad ↦ rw bad (ap (λ n. record p { skipped = n }) (omega arith))
  ]

  import_charges_again :
      (cs : List Charge) (p : Progress)
      → IsSmooth p
      → All (IsDone p.ledger) cs
      → import_charges business user cs p ≡ skipping (count is_success cs) p
  unfolding import_charges
  import_charges_again [] p h done = ap (λ n. record p { skipped = n }) (omega arith)
  import_charges_again (c ∷ cs) p (ok, live) (first, rest) =
      import_charges_on business user c cs p (ok, live)
      ∙ rw (import_charge_again c p live first) (
          import_charges_again cs (skipping (count is_success (c ∷ [])) p) (ok, live) rest
          ∙ ap (λ n. record p { skipped = n }) (omega arith))

  import_refund_again :
      (r : Refund) (p : Progress)
      → AllLive p.ledger
      → HasRefund p.ledger r
      → import_refund business user r p ≡ skipping 1 p
  unfolding import_refund
  import_refund_again r p live h = rw (saved_again (refund_row r) p.ledger live h) refl

  import_refunds_again :
      (rs : List Refund) (p : Progress)
      → IsSmooth p
      → All (HasRefund p.ledger) rs
      → import_refunds business user rs p ≡ skipping (length rs) p
  unfolding import_refunds
  import_refunds_again [] p h done = ap (λ n. record p { skipped = n }) (omega arith)
  import_refunds_again (r ∷ rs) p (ok, live) (first, rest) =
      import_refunds_on business user r rs p (ok, live)
      ∙ rw (import_refund_again r p live first) (
          import_refunds_again rs (skipping 1 p) (ok, live) rest
          ∙ ap (λ n. record p { skipped = n }) (omega arith))

  -- What an import leaves
  pub import_all-IsDone :
      (cs : List Charge) (rs : List Refund) (ts : List Transaction)
      → AllLive ts
      → All (IsDone (import_all business user cs rs ts).ledger) cs
        × All (HasRefund (import_all business user cs rs ts).ledger) rs
  unfolding import_all
  import_all-IsDone cs rs ts live =
      let q = import_charges business user cs (begin ts) in
      (
        All-map {P = IsDone q.ledger} {Q = IsDone (import_refunds business user rs q).ledger}
            (λ c (h : IsDone q.ledger c) ok.
              import_refunds-KeepsRows rs q (of_charge (key_of c.id c.reference) revenue) (h ok))
            cs (import_charges-IsDone cs (begin ts) (refl, live)),
        import_refunds-HasRefund rs q
            (import_charges-IsSmooth business user cs (begin ts) (refl, live)),
      )

  pub import_all_done :
      (cs : List Charge) (rs : List Refund) (ts : List Transaction)
      → AllLive ts
      → All (IsDone ts) cs
      → All (HasRefund ts) rs
      → import_all business user cs rs ts ≡ record {
        imported = 0;
        skipped = count is_success cs + length rs;
        ledger = ts;
        has_thrown = false;
      }
  unfolding import_all
  import_all_done cs rs ts live h k = rw (import_charges_again cs (begin ts) (refl, live) h) (
      import_refunds_again rs (skipping (count is_success cs) (begin ts)) (refl, live) k
      ∙ ap (λ n. record (begin ts) { skipped = n }) (omega arith))

-- Where no row of the ledger is deleted, an import throws nothing and counts each charge that
-- succeeded and each refund once, as imported or as skipped. The same charges and refunds imported
-- again right after, for whichever business and user, are all skipped and leave the ledger as it is.
pub import_all_again :
    (business user later_business later_user : ℕ) (cs : List Charge) (rs : List Refund)
    (ts : List Transaction)
    → AllLive ts
    → ((import_all business user cs rs ts).has_thrown ≡ false)
      × (handled (import_all business user cs rs ts) ≡ count is_success cs + length rs)
      × (import_all later_business later_user cs rs (import_all business user cs rs ts).ledger
          ≡ record {
            imported = 0;
            skipped = count is_success cs + length rs;
            ledger = (import_all business user cs rs ts).ledger;
            has_thrown = false;
          })
import_all_again b u b' u' cs rs ts live =
    let (charges, refunds) = import_all-IsDone b u cs rs ts live in
    let (ok, later) = import_all-IsSmooth b u cs rs ts live in
    (
      ok,
      import_all-handled b u cs rs ts live,
      import_all_done b' u' cs rs (import_all b u cs rs ts).ledger later charges refunds,
    )
