-- ===== src/Integrations/Events.antt =====
-- src/integrations/services/integrations.service.ts: ingestEvent and the rows that it mirrors. One
-- request runs to its end before the next.
pub mod Money
pub mod Mirror
pub mod Again
use Prim.Native.String.{◌++◌ as ◌<>◌}
use mytrackr_backend.Prelude.{
  ℕ, ◌+◌, ◌*◌, Bool, true, false, ◌&&◌, Option, none, some, String, List, [], ◌∷◌, ◌++◌, map, ◌==◌,
  ltb, str_eq, or_else, if◌then◌else◌,
}
use mytrackr_backend.Prelude.Codes.{Codes, to_lower_case}
use mytrackr_backend.Reports.Treatment.{credit, debit}
use mytrackr_backend.Integrations.Delivery.{World, WebhookLog, deliver, integration_event_received}
use mytrackr_backend.Payments.Entities.{Integration}
use mytrackr_backend.Integrations.Entities.{
  IntegrationEvent, IntegrationEventItem, IntegrationEventType, order_paid, order_refunded,
  order_cancelled, payment_failed, outbound,
}
use mytrackr_backend.Integrations.Ledger.{
  revenue, fee, refund, of_event, Saved, is_refused, Transaction, TransactionDto,
  save_business_finance_transaction,
}

pub record EventItemDto : Type 0 where
  pub product_id : Option String
  pub name : String
  pub category : Option String
  pub quantity : ℕ
  pub unit_price : ℕ
  pub total : Option ℕ

-- A request that has passed its validation; missing amounts are 0.
pub record CreateIntegrationEventDto : Type 0 where
  pub event : IntegrationEventType
  pub external_id : String
  pub order_id : Option String
  pub amount : ℕ
  pub tax_amount : ℕ
  pub payment_fee : ℕ
  pub currency : Option String
  pub payment_provider : Option String
  pub customer_email : Option Codes
  pub customer_name : Option String
  pub occurred_at : ℕ
  pub metadata : Option String
  pub items : List EventItemDto

pub record Books : Type 0 where
  pub events : List IntegrationEvent
  pub transactions : List Transaction
  pub logs : List WebhookLog
  pub next_id : ℕ

-- The servers, the text of an event in a webhook, and the id of a delivery
pub record Outside : Type 0 where
  pub world : World
  pub event_text : IntegrationEvent → String
  pub delivery : String

unfoldable pub find_event :
    (integration : ℕ) → (external : String) → List IntegrationEvent → Option IntegrationEvent
find_event i x [] = none
find_event i x (e ∷ es) =
    let later = find_event i x es in
    if e.integration == i && str_eq e.external_id x then some e else later

abbrev pub create_item : EventItemDto → IntegrationEventItem
create_item d = record {
  product_id = d.product_id;
  name = d.name;
  category = d.category;
  quantity = d.quantity;
  unit_price = d.unit_price;
  total = or_else d.total (d.quantity * d.unit_price);
}

abbrev lower : Option Codes → Option Codes
lower none = none
lower (some text) = some (to_lower_case text)

unfoldable pub create_event : ℕ → Integration → CreateIntegrationEventDto → IntegrationEvent
create_event id i dto = record {
  id = id;
  integration = i.id;
  business = i.business.id;
  user = i.user;
  event = dto.event;
  external_id = dto.external_id;
  order_id = dto.order_id;
  amount = dto.amount;
  tax_amount = dto.tax_amount;
  payment_fee = dto.payment_fee;
  currency = or_else dto.currency (or_else i.business.currency "NGN");
  payment_provider = dto.payment_provider;
  customer_email = lower dto.customer_email;
  customer_name = dto.customer_name;
  occurred_at = dto.occurred_at;
  metadata = dto.metadata;
  items = map create_item dto.items;
}

-- saveFinanceTransaction: the row has the name of the integration
abbrev pub save_finance_transaction :
    Integration → TransactionDto → List Transaction → Saved × List Transaction
save_finance_transaction i dto rows =
    save_business_finance_transaction i.business.id i.user dto rows

abbrev with_order : String → Option String → String
with_order text none = text
with_order text (some order) = text <> (" " <> order)

abbrev pub sale : Integration → IntegrationEvent → TransactionDto
sale i e = record {
  external_id = of_event e.integration e.external_id revenue;
  name = i.name;
  amount = e.amount;
  direction = credit;
  description = with_order "Website sale" e.order_id;
  date = e.occurred_at;
  category = "INCOME";
  sub_category = none;
}

abbrev pub sale_fee : Integration → IntegrationEvent → TransactionDto
sale_fee i e = record {
  external_id = of_event e.integration e.external_id fee;
  name = i.name;
  amount = e.payment_fee;
  direction = debit;
  description = with_order "Payment fee" e.order_id;
  date = e.occurred_at;
  category = "EXPENSE";
  sub_category = some "Payment Fees";
}

abbrev pub sale_refund : Integration → IntegrationEvent → TransactionDto
sale_refund i e = record {
  external_id = of_event e.integration e.external_id refund;
  name = i.name;
  amount = e.amount;
  direction = debit;
  description = with_order "Website refund" e.order_id;
  date = e.occurred_at;
  category = "INCOME";
  sub_category = some "Refunds";
}

-- Whether a save throws, and the rows
abbrev pub throws : Saved × List Transaction → Bool × List Transaction
throws r = (is_refused r.0, r.1)

abbrev pub mirror_sale : Integration → IntegrationEvent → List Transaction → Bool × List Transaction
mirror_sale i e rows =
    let sold = save_finance_transaction i (sale i e) rows in
    if is_refused sold.0
    then (true, sold.1)
    else if ltb 0 e.payment_fee
    then throws (save_finance_transaction i (sale_fee i e) sold.1)
    else (false, sold.1)

-- mirrorFinanceTransactions, by the type of the event
abbrev pub mirror_as :
    IntegrationEventType
    → Integration
    → IntegrationEvent
    → List Transaction
    → Bool × List Transaction
mirror_as order_paid i e rows = mirror_sale i e rows
mirror_as order_refunded i e rows = throws (save_finance_transaction i (sale_refund i e) rows)
mirror_as order_cancelled i e rows = (false, rows)
mirror_as payment_failed i e rows = (false, rows)

unfoldable pub mirror_finance_transactions :
    Integration → IntegrationEvent → List Transaction → Bool × List Transaction
mirror_finance_transactions i e rows = mirror_as e.event i e rows

pub record Ingested : Type 0 where
  pub id : ℕ
  pub external_id : String
  pub duplicate : Bool

-- The event, its rows, and the webhook, which is not sent where the rows throw
unfoldable pub record_event : Outside → Integration → IntegrationEvent → Books → Books
record_event o i e b =
    let (thrown, rows) = mirror_finance_transactions i e b.transactions in
    record {
      events = b.events ++ e ∷ [];
      transactions = rows;
      logs =
          if thrown
          then b.logs
          else deliver o.world (b.next_id + 1) o.delivery (outbound i) integration_event_received
              (o.event_text e) b.logs;
      next_id = if thrown then b.next_id + 1 else b.next_id + 2;
    }

-- The answer to a new event; none where the rows throw
abbrev pub answer_new : Integration → IntegrationEvent → List Transaction → Option Ingested
answer_new i e rows =
    if (mirror_finance_transactions i e rows).0
    then none
    else some (record { id = e.id; external_id = e.external_id; duplicate = false })

-- ingestEvent
unfoldable pub ingest_event :
    Outside → Integration → CreateIntegrationEventDto → Books → Option Ingested × Books
ingest_event o i dto b = elim (find_event i.id dto.external_id b.events) [
  | some e ↦ (some (record { id = e.id; external_id = e.external_id; duplicate = true }), b)
  | none ↦ (
    answer_new i (create_event b.next_id i dto) b.transactions,
    record_event o i (create_event b.next_id i dto) b,
  )
]
