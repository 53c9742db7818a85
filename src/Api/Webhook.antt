-- ===== src/Api/Webhook.antt =====
-- internal/api/handlers/webhook.go. The provider's check of a signature and its parser are parameters,
-- and so is `time.Parse` for a time stamp. A response is its status code; logging is left out.
pub mod Once
use vaultnuban.Prelude.{
  ℕ, String, Option, none, some, Bool, true, false, not, ◌-◌, ◌/◌, ◌&&◌, ltb, if◌then◌else◌,
}
use vaultnuban.Prelude.Text.{concat, str_eq}
use vaultnuban.Prelude.Action.{M, Result, ok, err}
use vaultnuban.Domain.{Time, Bytes, second, WebhookEvent}
use vaultnuban.Store.{WebhookEventStore}
use vaultnuban.Provider.{WebhookPayload}
use vaultnuban.Recon.Worker.{WorkItem, Queue, enqueue}

pub record Headers : Type 0 where
  pub signature : String
  pub signature_algorithm : String
  pub signature_version : String
  pub timestamp : String

-- A body of none is one that could not be read.
pub record WebhookRequest : Type 0 where
  pub headers : Headers
  pub body : Option Bytes

pub record WebhookHandler (W : Type 0) : Type 0 where
  pub verify_webhook_signature : Headers → Bytes → Result (Unit {0})
  pub parse_webhook : Bytes → Result WebhookPayload
  pub parse_time : String → Option Time
  pub webhooks : WebhookEventStore W
  pub now : W → Time

abbrev pub replay_window_seconds : ℕ
replay_window_seconds = 300

-- `timestampAge`: a time stamp that does not parse, or that lies ahead, is not old.
abbrev pub timestamp_age : Option Time → Time → ℕ
timestamp_age none now = 0
timestamp_age (some t) now = (now - t) / second

abbrev pub dedupe_key : WebhookPayload → String
dedupe_key p = concat p.transaction.transaction_id (concat ":" p.event_type)

abbrev pub event_of : Bytes → WebhookPayload → WebhookEvent
event_of body p = record {
  id = "";
  dedupe_key = dedupe_key p;
  event_type = p.event_type;
  signature_valid = true;
  status = "received";
  payload = body;
  created_at = 0;
  processed_at = none;
}

module _ {W : Type 0} (h : WebhookHandler W) where
  -- The replay window; a request without a time stamp is let through.
  abbrev pub is_stale : Headers → W → Bool
  is_stale headers w =
      not (str_eq headers.timestamp "")
      && ltb replay_window_seconds (timestamp_age (h.parse_time headers.timestamp) (h.now w))

  -- What follows the insertion of the event: only a new one is queued.
  unfoldable pub respond :
      WebhookPayload → Queue → Result (Bool × WebhookEvent) × W → ℕ × (W × Queue)
  respond p q (err _, w) = (500, (w, q))
  respond p q (ok (false, evt), w) = (200, (w, q))
  respond p q (ok (true, evt), w) = (
    200,
    (w, (enqueue (record { webhook_event_id = evt.id; payload = p; source = "webhook" }) q).1),
  )

  -- A body that does not parse is acknowledged and dropped.
  unfoldable pub ingest : Bytes → Result WebhookPayload → W → Queue → ℕ × (W × Queue)
  ingest body (err _) w q = (200, (w, q))
  ingest body (ok p) w q = respond p q (h.webhooks.insert_webhook_event (event_of body p) w)

  -- The signature, then the replay window.
  unfoldable pub admit : Headers → Bytes → Result (Unit {0}) → W → Queue → ℕ × (W × Queue)
  admit headers body (err _) w q = (401, (w, q))
  admit headers body (ok _) w q =
      if is_stale headers w then (401, (w, q)) else ingest body (h.parse_webhook body) w q

  unfoldable pub read : Headers → Option Bytes → W → Queue → ℕ × (W × Queue)
  read headers none w q = (400, (w, q))
  read headers (some body) w q = admit headers body (h.verify_webhook_signature headers body) w q

  -- `HandleNombaWebhook`
  unfoldable pub handle_nomba_webhook : WebhookRequest → W × Queue → ℕ × (W × Queue)
  handle_nomba_webhook r (w, q) = read r.headers r.body w q
