-- ===== src/Integrations/Events/Mirror.antt =====
-- The rows that events leave in the ledger.
use mytrackr_backend.Prelude.{
  Bool, ℕ, ◌≡◌, sym, ◌∙◌, ap, false, ◌&&◌, ◌==◌, ltb, none, String, List, [], ◌∷◌, ◌++◌, arith,
  str_eq, Option-cases, inl, inr, if_both,
}
use mytrackr_backend.Prelude.Int.{◌+ℤ◌}
use mytrackr_backend.Reports.Ledger.{where_only}
use mytrackr_backend.Payments.Entities.{Integration}
use mytrackr_backend.Integrations.Entities.{
  IntegrationEvent, IntegrationEventType, order_paid, order_refunded, order_cancelled,
  payment_failed,
}
use mytrackr_backend.Integrations.Ledger.{
  is_refused, RowKind, revenue, fee, refund, ExternalId, of_event, same_id, Transaction,
  TransactionDto, has_row, create_row, has_row-append, save_rows,
}
use mytrackr_backend.Integrations.Metrics.{in_scope}
use mytrackr_backend.Integrations.Events.{
  CreateIntegrationEventDto, Books, Outside, find_event, create_event, save_finance_transaction,
  sale, sale_fee, sale_refund, mirror_as, mirror_finance_transactions, record_event, ingest_event,
}
use mytrackr_backend.Integrations.Events.Money.{
  IsWhole, event_money, money_of_rows, money_of_events, sum_ℤ-append, mirror_as-money,
}

-- The ledger mirrors the events: in each period of whole days, the rows of an integration add up to what its
-- events say, and an external id that no event has is on no such row.
pub record IsMirrored (events : List IntegrationEvent) (rows : List Transaction) : Type 0 where
  pub money :
      (k start end_at : ℕ)
      → IsWhole start end_at
      → money_of_rows k start end_at rows ≡ money_of_events k start end_at events
  pub unused :
      (k : ℕ) (x : String) (kind : RowKind)
      → find_event k x events ≡ none
      → has_row (of_event k x kind) rows ≡ false

-- Saving a row leaves the ids that it does not have.
save-has_row :
    (i : Integration) (dto : TransactionDto) (rows : List Transaction) (x : ExternalId)
    → same_id dto.external_id x ≡ false
    → has_row x rows ≡ false
    → has_row x (save_finance_transaction i dto rows).1 ≡ false
save-has_row i dto rows x differs h = rw (save_rows i.business.id i.user dto rows) (
    if_both (λ ys. has_row x ys ≡ false) (has_row dto.external_id rows) _ _ (λ _. h)
      (λ _. rw (has_row-append x rows (create_row i.business.id i.user dto), differs) h))

other_event :
    (e : IntegrationEvent) (k : ℕ) (x : String) (kind l : RowKind)
    → (e.integration == k && str_eq e.external_id x) ≡ false
    → same_id (of_event e.integration e.external_id kind) (of_event k x l) ≡ false
unfolding same_id
other_event e k x kind l h = ground arith

mirror_as-has_row :
    (type : IntegrationEventType) (i : Integration) (e : IntegrationEvent) (rows : List Transaction)
    (k : ℕ) (x : String) (kind : RowKind)
    → (e.integration == k && str_eq e.external_id x) ≡ false
    → has_row (of_event k x kind) rows ≡ false
    → has_row (of_event k x kind) (mirror_as type i e rows).1 ≡ false
mirror_as-has_row order_paid i e rows k x kind differs h =
    let sold =
      save-has_row i (sale i e) rows (of_event k x kind) (other_event e k x revenue kind differs)
        h in
    if_both (λ (r : Bool × List Transaction). has_row (of_event k x kind) r.1 ≡ false)
      (is_refused (save_finance_transaction i (sale i e) rows).0) _ _ (λ _. sold)
      (λ _.
        if_both (λ (r : Bool × List Transaction). has_row (of_event k x kind) r.1 ≡ false)
          (ltb 0 e.payment_fee) _ _
          (λ _.
            save-has_row i (sale_fee i e) _ (of_event k x kind) (other_event e k x fee kind differs)
              sold)
          (λ _. sold))
mirror_as-has_row order_refunded i e rows k x kind differs h =
    save-has_row i (sale_refund i e) rows (of_event k x kind)
      (other_event e k x refund kind differs) h
mirror_as-has_row order_cancelled i e rows k x kind differs h = h
mirror_as-has_row payment_failed i e rows k x kind differs h = h

-- Looking for what is not at the end
find_event-append :
    (k : ℕ) (x : String) (es : List IntegrationEvent) (e : IntegrationEvent)
    → find_event k x (es ++ e ∷ []) ≡ none
    → (find_event k x es ≡ none) × ((e.integration == k && str_eq e.external_id x) ≡ false)
unfolding find_event
find_event-append k x [] e h = ground arith
find_event-append k x (d ∷ ds) e h = ground (arith, find_event-append k x ds e)

record_event-IsMirrored :
    (o : Outside) (i : Integration) (e : IntegrationEvent) (b : Books)
    → find_event e.integration e.external_id b.events ≡ none
    → IsMirrored b.events b.transactions
    → IsMirrored (record_event o i e b).events (record_event o i e b).transactions
unfolding record_event mirror_finance_transactions
record_event-IsMirrored o i e b free h = record {
  money = λ k s t whole.
      mirror_as-money e.event i e b.transactions
        (λ kind. h.unused e.integration e.external_id kind free) k s t whole
      ∙ (ap (λ m. m +ℤ where_only (in_scope k s t) event_money e) (h.money k s t whole)
          ∙ sym (sum_ℤ-append (where_only (in_scope k s t) event_money) b.events e));
  unused = λ k x kind missing.
      let (before, differs) = find_event-append k x b.events e missing in
      mirror_as-has_row e.event i e b.transactions k x kind differs (h.unused k x kind before);
}

-- An event keeps the ledger and the events together.
pub ingest_event-IsMirrored :
    (o : Outside) (i : Integration) (dto : CreateIntegrationEventDto) (b : Books)
    → IsMirrored b.events b.transactions
    → IsMirrored (ingest_event o i dto b).1.events (ingest_event o i dto b).1.transactions
unfolding ingest_event create_event
ingest_event-IsMirrored o i dto b h =
    elim (Option-cases (find_event i.id dto.external_id b.events)) [
      | inl free ↦
          rw (free, ingest_event)
            (record_event-IsMirrored o i (create_event b.next_id i dto) b free h)
      | inr (e, there) ↦ rw (there, ingest_event) h
    ]
