-- ===== src/Integrations/Metrics/Tests.antt =====
-- A shop that sells twice, pays a fee, refunds once, and sends one event again.
use mytrackr_backend.Prelude.{ℕ, ◌≡◌, refl, true, none, some, String, List, [], ◌∷◌, keep}
use mytrackr_backend.Prelude.Codes.{codes}
use mytrackr_backend.Payments.Entities.{Integration, IntegrationPlatform, IntegrationBillingStatus}
use mytrackr_backend.Integrations.Delivery.{status}
use mytrackr_backend.Integrations.Entities.{IntegrationEventType, order_paid, order_refunded}
use mytrackr_backend.Integrations.Events.{
  CreateIntegrationEventDto, Books, Outside, find_event, create_event, record_event, ingest_event,
}
use mytrackr_backend.Integrations.Events.Again.{HasId, duplicate_of, ingest_event_again}
use mytrackr_backend.Integrations.Metrics.{
  Metrics, insert_by_time, by_time, in_scope, metrics_of, get_metrics,
}
use mytrackr_backend.Integrations.Metrics.Totals.{paid_in, IsBrokenDown, get_metrics-IsBrokenDown}
use mytrackr_backend.Integrations.Metrics.NetSales.{Request, ingest_all}

abbrev shop : Integration
shop = record {
  id = 1;
  user = 7;
  business = record { id = 3; name = "Shop"; currency = none };
  plan = none;
  name = "Shop";
  platform = IntegrationPlatform.react;
  public_key = "pk";
  api_key_prefix = codes "mt_sk_0123456789";
  api_key_hash = "h";
  allowed_origins = [];
  redirect_url = none;
  webhook_url = some "https://shop.example/hook";
  is_active = true;
  billing_status = IntegrationBillingStatus.active;
  current_period_end = none;
  last_used_at = none;
}

abbrev sells : String → IntegrationEventType → ℕ → ℕ → CreateIntegrationEventDto
sells id type amount fee = record {
  event = type;
  external_id = id;
  order_id = some "A1";
  amount = amount;
  tax_amount = 0;
  payment_fee = fee;
  currency = none;
  payment_provider = none;
  customer_email = some (codes "Ada@shop.example");
  customer_name = none;
  occurred_at = 1000;
  metadata = none;
  items =
      record {
        product_id = none;
        name = "Tea";
        category = none;
        quantity = 2;
        unit_price = 400;
        total = none;
      }
      ∷ [];
}

abbrev around : Outside
around = record {
  world = record { now = 9; post = λ _ _ _. status 204; secret = none; hmac = λ _ _. "" };
  event_text = λ _. "{}";
  delivery = "d";
}

abbrev asks : CreateIntegrationEventDto → Request
asks dto = record { outside = around; integration = shop; dto = dto }

abbrev requests : List Request
requests =
    asks (sells "e1" order_paid 5000 120)
    ∷ asks (sells "e2" order_paid 2000 0)
    ∷ asks (sells "e1" order_paid 5000 120)
    ∷ asks (sells "e3" order_refunded 500 0)
    ∷ []

abbrev empty_books : Books
empty_books = record { events = []; transactions = []; logs = []; next_id = 1 }

abbrev figures : Metrics
figures =
    metrics_of 0 86399999
      (keep (in_scope 1 0 86399999) (by_time (ingest_all requests empty_books).events))

figures_lem :
    get_metrics 5000 shop
      (some (some 0))
      (some (some 86399999))
      (ingest_all requests empty_books).events
    ≡ some figures
unfolding get_metrics
figures_lem = refl

sales_lem : (figures.gross_sales ≡ 7000) × (figures.refunds ≡ 500) × (figures.payment_fees ≡ 120)
unfolding metrics_of ingest_all by_time ingest_event record_event create_event find_event
    insert_by_time
sales_lem = (refl, refl, refl)

get_metrics-IsBrokenDown_example :
    IsBrokenDown
      (paid_in 1 figures.start figures.end_at (ingest_all requests empty_books).events)
      figures
get_metrics-IsBrokenDown_example =
    get_metrics-IsBrokenDown 5000 shop (some (some 0)) (some (some 86399999))
      (ingest_all requests empty_books).events figures figures_lem

abbrev first_sale : Books
first_sale = (ingest_event around shop (sells "e1" order_paid 5000 120) empty_books).1

ingest_event_again_example :
    (id : ℕ) × HasId id (ingest_event around shop (sells "e1" order_paid 5000 120) empty_books).0
    × (ingest_event around shop (sells "e1" order_refunded 1 0) first_sale
        ≡ (some (duplicate_of id "e1"), first_sale))
ingest_event_again_example =
    ingest_event_again around around shop (sells "e1" order_paid 5000 120)
      (sells "e1" order_refunded 1 0) empty_books refl
