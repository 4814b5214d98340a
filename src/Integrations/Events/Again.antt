-- ===== src/Integrations/Events/Again.antt =====
-- An event that is delivered twice.
use mathlib.Core.Path.{subst}
use mytrackr_backend.Prelude.{
  ℕ, ◌≡◌, refl, ◌∙◌, ap, true, ◌&&◌, ◌==◌, Option, if_both, none, some, String, List, [], ◌∷◌, ◌++◌,
  arith, str_eq, str_eq_refl, str_eq_iff, ==_refl, Bool-cases, Option-cases, inl, inr,
}
use mytrackr_backend.Payments.Entities.{Integration}
use mytrackr_backend.Integrations.Entities.{IntegrationEvent}
use mytrackr_backend.Integrations.Ledger.{Transaction}
use mytrackr_backend.Integrations.Events.{
  CreateIntegrationEventDto, Books, Outside, Ingested, find_event, create_event, record_event,
  mirror_finance_transactions, answer_new, ingest_event,
}

abbrev IsEvent : (integration : ℕ) → (external : String) → IntegrationEvent → Type 0
IsEvent k x e = (e.integration ≡ k) × (e.external_id ≡ x)

-- A row that is found has the ids that were asked for.
pub find_event-eq-some :
    (k : ℕ) (x : String) (es : List IntegrationEvent) (e : IntegrationEvent)
    → find_event k x es ≡ some e
    → IsEvent k x e
unfolding find_event
find_event-eq-some k x [] e h = cc
find_event-eq-some k x (d ∷ ds) e h =
    elim (Bool-cases (d.integration == k && str_eq d.external_id x)) [
      | inl same ↦
          let e' : some d ≡ some e = rw same at h in
          let f : d ≡ e = cc in subst (IsEvent k x) f (ground (arith, str_eq_iff d.external_id x))
      | inr other ↦ find_event-eq-some k x ds e (rw other at h)
    ]

not_none : (d : IntegrationEvent) → some d ≡ none → ⊥
not_none d h = cc

-- A row that is added at the end is found where none was.
find_event-append_self :
    (es : List IntegrationEvent) (e : IntegrationEvent)
    → find_event e.integration e.external_id es ≡ none
    → find_event e.integration e.external_id (es ++ e ∷ []) ≡ some e
unfolding find_event
find_event-append_self [] e h = rw (==_refl e.integration, str_eq_refl e.external_id) refl
find_event-append_self (d ∷ ds) e h =
    elim (Bool-cases (d.integration == e.integration && str_eq d.external_id e.external_id)) [
      | inl same ↦ absurd (not_none d (rw same at h))
      | inr other ↦ rw other (find_event-append_self ds e (rw other at h))
    ]

-- The answer to an event that is there already
abbrev pub duplicate_of : (id : ℕ) → (external : String) → Ingested
duplicate_of id x = record { id = id; external_id = x; duplicate = true }

ingest_event_found :
    (o : Outside) (i : Integration) (dto : CreateIntegrationEventDto) (b : Books)
    (e : IntegrationEvent)
    → find_event i.id dto.external_id b.events ≡ some e
    → ingest_event o i dto b ≡ (some (duplicate_of e.id e.external_id), b)
unfolding ingest_event
ingest_event_found o i dto b e h = rw (h, ingest_event) refl

ingest_event_new :
    (o : Outside) (i : Integration) (dto : CreateIntegrationEventDto) (b : Books)
    → find_event i.id dto.external_id b.events ≡ none
    → ingest_event o i dto b ≡ (
      answer_new i (create_event b.next_id i dto) b.transactions,
      record_event o i (create_event b.next_id i dto) b,
    )
unfolding ingest_event
ingest_event_new o i dto b h = rw (h, ingest_event) refl

record_event-find :
    (o : Outside) (i : Integration) (dto : CreateIntegrationEventDto) (b : Books)
    → find_event i.id dto.external_id b.events ≡ none
    → find_event i.id dto.external_id (record_event o i (create_event b.next_id i dto) b).events
      ≡ some (create_event b.next_id i dto)
unfolding record_event create_event
record_event-find o i dto b h = find_event-append_self b.events (create_event b.next_id i dto) h

-- An answer, where there is one, has the id.
abbrev pub HasId : ℕ → Option Ingested → Type 0
HasId k none = Unit
HasId k (some r) = r.id ≡ k

answer_new-HasId :
    (i : Integration) (e : IntegrationEvent) (rows : List Transaction)
    → HasId e.id (answer_new i e rows)
answer_new-HasId i e rows =
    if_both (HasId e.id) (mirror_finance_transactions i e rows).0 _ _ (λ _. tt) (λ _. refl)

-- Once an event of an integration has been taken, by a new row or as a duplicate, or has thrown while
-- its rows were saved, every later event of the integration under the same external id, whatever else
-- it says, is answered as a duplicate, with the id of the first answer if there was one, and changes
-- nothing.
pub ingest_event_again :
    (o p : Outside) (i : Integration) (dto later : CreateIntegrationEventDto) (b : Books)
    → later.external_id ≡ dto.external_id
    → (id : ℕ) × HasId id (ingest_event o i dto b).0
      × (ingest_event p i later (ingest_event o i dto b).1
          ≡ (some (duplicate_of id dto.external_id), (ingest_event o i dto b).1))
unfolding create_event
ingest_event_again o p i dto later b same =
    elim (Option-cases (find_event i.id dto.external_id b.events)) [
      | inl missing ↦ rw (ingest_event_new o i dto b missing) (
        b.next_id,
        answer_new-HasId i (create_event b.next_id i dto) b.transactions,
        ingest_event_found p i later (record_event o i (create_event b.next_id i dto) b)
            (create_event b.next_id i dto) (rw same (record_event-find o i dto b missing)),
      )
      | inr (e, found) ↦ rw (ingest_event_found o i dto b e found) (
        e.id,
        refl,
        ingest_event_found p i later b e (rw same found)
            ∙ ap (λ x. (some (duplicate_of e.id x), b))
                (find_event-eq-some i.id dto.external_id b.events e found).1,
      )
    ]
