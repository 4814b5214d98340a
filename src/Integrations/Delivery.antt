-- ===== src/Integrations/Delivery.antt =====
-- src/integrations/services/integration-webhook.service.ts: outbound webhooks and their log. The
-- answers of the partners' servers, the JSON text of a body and its HMAC are parameters.
pub mod Settled
use mytrackr_backend.Prelude.{
  ℕ, suc, ◌+◌, Bool, true, false, ◌&&◌, ◌||◌, not, Option, none, some, String, List, [], ◌∷◌, ◌++◌,
  ◌==◌, str_eq, ltb, leb, is_some, if◌then◌else◌,
}

pub data IntegrationWebhookEvent : Type 0 where
  integration_created integration_updated integration_revoked integration_event_received :
      IntegrationWebhookEvent

-- The columns of an integration that are delivered; an empty text is missing.
pub record Integration : Type 0 where
  pub id : ℕ
  pub name : String
  pub platform : String
  pub public_key : String
  pub webhook_url : Option String
  pub redirect_url : Option String
  pub billing_status : String
  pub is_active : Bool

-- The delivery, with its id, and the event's data as a text
pub record DeliveryEnvelope : Type 0 where
  pub id : String
  pub event : IntegrationWebhookEvent
  pub created_at : ℕ
  pub integration : Integration
  pub payload_data : String

-- What the payload of a log row says, where it has the field
pub record Payload : Type 0 where
  pub is_outbound : Bool
  pub url : Option String
  pub body : Option DeliveryEnvelope

pub data LogStatus : Type 0 where
  received delivered failed : LogStatus

pub data LogError : Type 0 where
  invalid_payload : LogError
  responded : ℕ → LogError
  thrown : String → LogError

pub record WebhookLog : Type 0 where
  pub id : ℕ
  pub source : String
  pub payload : Option Payload
  pub status : LogStatus
  pub error : Option LogError
  pub retry_count : ℕ
  pub processed_at : Option ℕ

abbrev pub integration_webhook_source : String
integration_webhook_source = "integrations.outbound"

-- The answer of a server: its status, or the message of a failure
pub data Response : Type 0 where
  status : ℕ → Response
  no_answer : String → Response

pub data Header : Type 0 where
  content_type user_agent : String → Header
  event_header : IntegrationWebhookEvent → Header
  delivery_id signature : String → Header
  timestamp : ℕ → Header

-- The clock, the servers and the signature of a body under the secret, if one is set
pub record World : Type 0 where
  pub now : ℕ
  pub post : String → DeliveryEnvelope → List Header → Response
  pub secret : Option String
  pub hmac : String → DeliveryEnvelope → String

-- buildHeaders
unfoldable pub build_headers : World → DeliveryEnvelope → List Header
build_headers w body =
    content_type "application/json"
    ∷ user_agent "MyTrackr-Webhook/1.0"
    ∷ event_header body.event
    ∷ delivery_id body.id
    ∷ timestamp body.created_at
    ∷ elim w.secret [ none ↦ [] | some k ↦ signature (w.hmac k body) ∷ [] ]

-- The error of an answer, and none for a status from 200 to 299
abbrev pub error_of : Response → Option LogError
error_of (status n) = if ltb n 200 || leb 300 n then some (responded n) else none
error_of (no_answer message) = some (thrown message)

abbrev pub fail : ℕ → LogError → WebhookLog → WebhookLog
fail now e l = record l { status = failed; error = some e; processed_at = some now }

abbrev pub settle : ℕ → Option LogError → WebhookLog → WebhookLog
settle now none l = record l { status = delivered; error = none; processed_at = some now }
settle now (some e) l = fail now e l

-- The address and the body to send, where the payload has them
abbrev pub to_send : Option Payload → Option (String × DeliveryEnvelope)
to_send none = none
to_send (some p) = if not p.is_outbound then none else elim p.url [
  | none ↦ none
  | some url ↦ elim p.body [ none ↦ none | some body ↦ some (url, body) ]
]

abbrev pub send_to : World → Option (String × DeliveryEnvelope) → WebhookLog → WebhookLog
send_to w none l = fail w.now invalid_payload l
send_to w (some (url, body)) l = settle w.now (error_of (w.post url body (build_headers w body))) l

-- sendLoggedWebhook, up to the row that it saves
unfoldable pub send_logged_webhook : World → WebhookLog → WebhookLog
send_logged_webhook w l = send_to w (to_send l.payload) l

unfoldable pub find_log : ℕ → List WebhookLog → Option WebhookLog
find_log k [] = none
find_log k (l ∷ ls) = let later = find_log k ls in if l.id == k then some l else later

-- save, for a row that is there
unfoldable pub save_log : WebhookLog → List WebhookLog → List WebhookLog
save_log r [] = []
save_log r (l ∷ ls) = let rest = save_log r ls in if l.id == r.id then r ∷ rest else l ∷ rest

abbrev pub envelope : String → ℕ → IntegrationWebhookEvent → Integration → String → DeliveryEnvelope
envelope delivery now event i payload_data = record {
  id = delivery;
  event = event;
  created_at = now;
  integration = i;
  payload_data = payload_data;
}

abbrev pub new_log : ℕ → String → DeliveryEnvelope → WebhookLog
new_log id url body = record {
  id = id;
  source = integration_webhook_source;
  payload = some (record { is_outbound = true; url = some url; body = some body });
  status = received;
  error = none;
  retry_count = 0;
  processed_at = none;
}

-- deliver, with the id of the new row and that of the delivery
unfoldable pub deliver :
    World
    → (row : ℕ) → (delivery : String) → Integration
    → IntegrationWebhookEvent
    → String
    → List WebhookLog
    → List WebhookLog
deliver w row delivery i event payload_data logs = elim i.webhook_url [
  | none ↦ logs
  | some url ↦
      let l = new_log row url (envelope delivery w.now event i payload_data) in
      save_log (send_logged_webhook w l) (logs ++ l ∷ [])
]

pub data RetryError : Type 0 where
  not_found not_outbound : RetryError

-- A retry throws, or answers with the row and the log as it is then.
pub data Retried : Type 0 where
  refused : RetryError → Retried
  answered : WebhookLog → List WebhookLog → Retried

abbrev pub reset : WebhookLog → WebhookLog
reset l = record l {
  retry_count = l.retry_count + 1;
  status = received;
  error = none;
  processed_at = none;
}

-- retryWebhookLog
unfoldable pub retry_webhook_log : World → ℕ → List WebhookLog → Retried
retry_webhook_log w k logs = elim (find_log k logs) [
  | none ↦ refused not_found
  | some l ↦
      if not (str_eq l.source integration_webhook_source)
      then refused not_outbound
      else answered (send_logged_webhook w (reset l))
          (save_log (send_logged_webhook w (reset l)) (save_log (reset l) logs))
]
