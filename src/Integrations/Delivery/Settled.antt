-- ===== src/Integrations/Delivery/Settled.antt =====
-- What a delivery and a retry leave in the log.
use mytrackr_backend.Prelude.{
  ℕ, ◌+◌, ◌≡◌, ◌≢◌, ◌∙◌, sym, ap, refl, inl, inr, Bool, false, ◌&&◌, Option, none, some, String,
  List, [], ◌∷◌, ltb, leb, arith, Option-cases, if◌then◌else◌,
}
use mytrackr_backend.Integrations.Delivery.{
  DeliveryEnvelope, WebhookLog, received, delivered, failed, LogError, Response, World, status,
  no_answer, Payload, build_headers, error_of, settle, to_send, send_to, send_logged_webhook,
  find_log, save_log, answered, reset, retry_webhook_log, invalid_payload,
}

-- A row is settled when it is delivered without an error, or failed with one, at the time.
pub record IsSettled (now : ℕ) (l : WebhookLog) : Type 0 where
  pub processed : l.processed_at ≡ some now
  pub when_delivered : l.status ≡ delivered → l.error ≡ none
  pub when_failed : l.error ≡ none → l.status ≡ delivered
  pub not_received : l.status ≢ received

settle-IsSettled : (now : ℕ) (o : Option LogError) (l : WebhookLog) → IsSettled now (settle now o l)
settle-IsSettled now none l = record {
  processed = refl;
  when_delivered = λ _. refl;
  when_failed = λ _. refl;
  not_received = λ e. cc;
}
settle-IsSettled now (some e) l = record {
  processed = refl;
  when_delivered = λ e. cc;
  when_failed = λ e. cc;
  not_received = λ e. cc;
}

-- What the row keeps while it is sent
pub record SameRow (l m : WebhookLog) : Type 0 where
  pub id : m.id ≡ l.id
  pub source : m.source ≡ l.source
  pub payload : m.payload ≡ l.payload
  pub retry_count : m.retry_count ≡ l.retry_count

settle-SameRow : (now : ℕ) (o : Option LogError) (l : WebhookLog) → SameRow l (settle now o l)
settle-SameRow now none l = record { id = refl; source = refl; payload = refl; retry_count = refl }
settle-SameRow now (some e) l = record {
  id = refl;
  source = refl;
  payload = refl;
  retry_count = refl;
}

send_to-IsSettled :
    (w : World) (o : Option (String × DeliveryEnvelope)) (l : WebhookLog)
    → IsSettled w.now (send_to w o l) × SameRow l (send_to w o l)
send_to-IsSettled w none l =
    (settle-IsSettled w.now (some invalid_payload) l, settle-SameRow w.now (some invalid_payload) l)
send_to-IsSettled w (some (url, body)) l =
    let o = error_of (w.post url body (build_headers w body)) in
    (settle-IsSettled w.now o l, settle-SameRow w.now o l)

send_logged_webhook-IsSettled :
    (w : World) (l : WebhookLog)
    → IsSettled w.now (send_logged_webhook w l) × SameRow l (send_logged_webhook w l)
unfolding send_logged_webhook
send_logged_webhook-IsSettled w l = send_to-IsSettled w (to_send l.payload) l

-- Saving a row twice keeps the last, and reading it gives what was saved.
find-save_log :
    (r l : WebhookLog) (logs : List WebhookLog)
    → find_log r.id logs ≡ some l
    → find_log r.id (save_log r logs) ≡ some r
unfolding find_log save_log
find-save_log r l [] h = ground arith
find-save_log r l (x ∷ logs) h = let ih = find-save_log r l logs in ground arith

-- The rows of other ids are as they were.
find-save_other :
    (r : WebhookLog) (k : ℕ) (logs : List WebhookLog)
    → k ≢ r.id
    → find_log k (save_log r logs) ≡ find_log k logs
unfolding find_log save_log
find-save_other r k [] h = refl
find-save_other r k (x ∷ logs) h = let ih = find-save_other r k logs h in ground arith

find_log-id :
    (k : ℕ) (logs : List WebhookLog) (l : WebhookLog) → find_log k logs ≡ some l → l.id ≡ k
unfolding find_log
find_log-id k [] l h = ground arith
find_log-id k (x ∷ logs) l h = let ih = find_log-id k logs l in ground arith

-- A success, as HTTP counts it
abbrev pub is_ok : Response → Bool
is_ok (status n) = leb 200 n && ltb n 300
is_ok (no_answer message) = false

-- The payload can be sent, and the server takes it.
abbrev pub is_taken : World → Option (String × DeliveryEnvelope) → Bool
is_taken w none = false
is_taken w (some (url, body)) = is_ok (w.post url body (build_headers w body))

abbrev pub is_accepted : World → Option Payload → Bool
is_accepted w p = is_taken w (to_send p)

settle-is_ok :
    (now : ℕ) (r : Response) (l : WebhookLog)
    → (settle now (error_of r) l).status ≡ (if is_ok r then delivered else failed)
settle-is_ok now (status n) l = ground arith
settle-is_ok now (no_answer message) l = refl

send_to-status :
    (w : World) (o : Option (String × DeliveryEnvelope)) (l : WebhookLog)
    → (send_to w o l).status ≡ (if is_taken w o then delivered else failed)
send_to-status w none l = refl
send_to-status w (some (url, body)) l =
    settle-is_ok w.now (w.post url body (build_headers w body)) l

send_logged_webhook-status :
    (w : World) (l : WebhookLog)
    → (send_logged_webhook w l).status ≡ (if is_accepted w l.payload then delivered else failed)
unfolding send_logged_webhook
send_logged_webhook-status w l = send_to-status w (to_send l.payload) l

-- What a retry says of a row, the row before and the log after
pub record IsRetried (w : World) (k : ℕ) (logs : List WebhookLog) (r : WebhookLog)
    (after : List WebhookLog) : Type 0 where
  pub before : WebhookLog
  pub found : find_log k logs ≡ some before
  pub stored : find_log k after ≡ some r
  pub settled : IsSettled w.now r
  pub outcome : r.status ≡ (if is_accepted w before.payload then delivered else failed)
  pub once_more : r.retry_count ≡ before.retry_count + 1
  pub same_payload : r.payload ≡ before.payload
  pub others : (j : ℕ) → j ≢ k → find_log j after ≡ find_log j logs

retried :
    (w : World) (k : ℕ) (logs : List WebhookLog) (l : WebhookLog)
    → find_log k logs ≡ some l
    → IsRetried w k logs
        (send_logged_webhook w (reset l))
        (save_log (send_logged_webhook w (reset l)) (save_log (reset l) logs))
retried w k logs l e =
    let (settled, same) = send_logged_webhook-IsSettled w (reset l) in
    let r = send_logged_webhook w (reset l) in
    let lid = find_log-id k logs l e in
    let rid = same.id ∙ lid in
    let saved = find-save_log (reset l) l logs (ap (λ (i : ℕ). find_log i logs) lid ∙ e) in
    let again =
      find-save_log r (reset l) (save_log (reset l) logs)
        (ap (λ (i : ℕ). find_log i (save_log (reset l) logs)) same.id ∙ saved) in
    record {
      before = l;
      found = e;
      stored = ap (λ (i : ℕ). find_log i (save_log r (save_log (reset l) logs))) (sym rid) ∙ again;
      settled = settled;
      outcome = send_logged_webhook-status w (reset l);
      once_more = same.retry_count;
      same_payload = same.payload;
      others = λ j other.
          find-save_other r j (save_log (reset l) logs) (λ q. other (q ∙ rid))
          ∙ find-save_other (reset l) j logs (λ q. other (q ∙ lid));
    }

-- A retry that answers has sent a row of the log once more, under its id and with its payload: it is
-- delivered exactly when the payload can be sent and the server answers 200 to 299, and failed with
-- an error otherwise; its count is one higher, and the other rows are as they were.
pub retry_webhook_log-IsRetried :
    (w : World) (k : ℕ) (logs : List WebhookLog) (r : WebhookLog) (after : List WebhookLog)
    → retry_webhook_log w k logs ≡ answered r after
    → IsRetried w k logs r after
unfolding retry_webhook_log
retry_webhook_log-IsRetried w k logs r after h = elim (Option-cases (find_log k logs)) [
  | inl e ↦ let bad : ⊥ = ground arith in elim bad [ ]
  | inr (l, e) ↦
      let row : send_logged_webhook w (reset l) ≡ r = ground arith in
      let log : save_log (send_logged_webhook w (reset l)) (save_log (reset l) logs) ≡ after =
        ground arith in
      rw (sym log, sym row) (retried w k logs l e)
]
