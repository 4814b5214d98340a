-- ===== src/Integrations/Tests.antt =====
-- A failed delivery that is sent again.
use mytrackr_backend.Prelude.{◌≡◌, refl, true, none, some, [], ◌∷◌}
use mytrackr_backend.Integrations.Delivery.{
  Integration, integration_created, DeliveryEnvelope, WebhookLog, World, status, responded, settle,
  envelope, new_log, find_log, save_log, send_logged_webhook, answered, reset, retry_webhook_log,
  deliver, fail,
}
use mytrackr_backend.Integrations.Delivery.Settled.{IsRetried, retry_webhook_log-IsRetried}

abbrev partner : Integration
partner = record {
  id = 1;
  name = "Shop";
  platform = "web";
  public_key = "pk";
  webhook_url = some "https://shop.example/hook";
  redirect_url = none;
  billing_status = "active";
  is_active = true;
}

abbrev body : DeliveryEnvelope
body = envelope "d1" 5 integration_created partner "{}"

abbrev sent : WebhookLog
sent = fail 6 (responded 503) (new_log 1 "https://shop.example/hook" body)

abbrev world : World
world = record { now = 9; post = λ _ _ _. status 204; secret = some "s"; hmac = λ _ _. "abc" }

abbrev delivered_row : WebhookLog
delivered_row = settle 9 none (reset sent)

retried_lem : retry_webhook_log world 1 (sent ∷ []) ≡ answered delivered_row (delivered_row ∷ [])
unfolding retry_webhook_log find_log save_log send_logged_webhook
retried_lem = refl

retry_webhook_log-IsRetried_example :
    IsRetried world 1 (sent ∷ []) delivered_row (delivered_row ∷ [])
retry_webhook_log-IsRetried_example =
    retry_webhook_log-IsRetried world 1 (sent ∷ []) delivered_row (delivered_row ∷ []) retried_lem

-- A first delivery, to a server that is down
first_delivery :
    deliver
      (record world { now = 6; post = λ _ _ _. status 503 })
      1
      "d1"
      partner
      integration_created
      "{}"
      []
    ≡ fail 6
        (responded 503)
        (new_log 1 "https://shop.example/hook" (envelope "d1" 6 integration_created partner "{}"))
      ∷ []
unfolding deliver find_log save_log send_logged_webhook
first_delivery = refl
