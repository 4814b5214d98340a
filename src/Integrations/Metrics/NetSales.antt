-- ===== src/Integrations/Metrics/NetSales.antt =====
-- The net sales are what the ledger says.
use mytrackr_backend.Prelude.{ℕ, ◌≡◌, false, List, [], ◌∷◌, keep, All}
use mytrackr_backend.Prelude.Int.{ℤ, pos, ◌-ℤ◌}
use mytrackr_backend.Payments.Entities.{Integration}
use mytrackr_backend.Integrations.Entities.{IntegrationEvent}
use mytrackr_backend.Integrations.Events.{CreateIntegrationEventDto, Books, Outside, ingest_event}
use mytrackr_backend.Integrations.Events.Money.{comes_from}
use mytrackr_backend.Integrations.Events.Mirror.{IsMirrored, ingest_event-IsMirrored}
use mytrackr_backend.Integrations.Metrics.{Metrics, is_paid, is_refunded, of_type, sum_of}

-- A request, with what is outside of the program during it
pub record Request : Type 0 where
  pub outside : Outside
  pub integration : Integration
  pub dto : CreateIntegrationEventDto

-- Requests, one after the other
unfoldable pub ingest_all : List Request → Books → Books
ingest_all [] b = b
ingest_all (r ∷ rs) b = ingest_all rs (ingest_event r.outside r.integration r.dto b).1

pub ingest_all-IsMirrored :
    (rs : List Request) (b : Books)
    → IsMirrored b.events b.transactions
    → IsMirrored (ingest_all rs b).events (ingest_all rs b).transactions
unfolding ingest_all
ingest_all-IsMirrored [] b h = h
ingest_all-IsMirrored (r ∷ rs) b h =
    ingest_all-IsMirrored rs (ingest_event r.outside r.integration r.dto b).1
      (ingest_event-IsMirrored r.outside r.integration r.dto b h)

-- Sales less refunds and fees
abbrev net : (gross refunds fees : ℕ) → ℤ
net g r f = pos g -ℤ pos r -ℤ pos f

abbrev paid_only : List IntegrationEvent → List IntegrationEvent
paid_only = keep (of_type is_paid)

abbrev refunds_only : List IntegrationEvent → List IntegrationEvent
refunds_only = keep (of_type is_refunded)

abbrev net_of : List IntegrationEvent → ℤ
net_of es =
    net (sum_of (λ e. e.amount) (paid_only es)) (sum_of (λ e. e.amount) (refunds_only es))
      (sum_of (λ e. e.payment_fee) (paid_only es))

-- Books without events, in whose ledger no row comes from one
pub record IsFresh (b : Books) : Type 0 where
  pub no_events : b.events ≡ []
  pub no_rows : All (λ t. (k : ℕ) → comes_from k t.external_id ≡ false) b.transactions
