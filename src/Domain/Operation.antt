-- ===== src/Domain/Operation.antt =====
-- Webhook events, sweep runs, relay endpoints and deliveries, and audit entries of internal/domain/domain.go.
use vaultnuban.Prelude.{ℕ, String, Option, Bool, true, false}
use vaultnuban.Prelude.Word.{Int64}
use vaultnuban.Domain.Base.{Time, Bytes}

pub record WebhookEvent : Type 0 where
  pub id : String
  pub dedupe_key : String
  pub event_type : String
  pub signature_valid : Bool
  pub status : String
  pub payload : Bytes
  pub created_at : Time
  pub processed_at : Option Time

pub record SweepRun : Type 0 where
  pub id : String
  pub window_from : Time
  pub window_to : Time
  pub pages_fetched : ℕ
  pub found : ℕ
  pub posted : ℕ
  pub suspensed : ℕ
  pub duration_ms : Option Int64
  pub error : Option String
  pub ran_at : Time

pub record AuditEntry : Type 0 where
  pub id : String
  pub tenant_id : Option String
  pub actor : String
  pub action : String
  pub entity_type : String
  pub entity_id : String
  pub before_after : Bytes
  pub at : Time

pub record RelayEndpoint : Type 0 where
  pub id : String
  pub tenant_id : String
  pub url : String
  pub secret_hash : String
  pub active : Bool
  pub created_at : Time

pub data DeliveryStatus : Type 0 where
  pending delivered failed dead_letter : DeliveryStatus

-- `d.Status == "failed"`
abbrev pub is_failed : DeliveryStatus → Bool
is_failed pending = false
is_failed delivered = false
is_failed failed = true
is_failed dead_letter = false

pub record RelayDelivery : Type 0 where
  pub id : String
  pub endpoint_id : String
  pub event_type : String
  pub payload : Bytes
  pub attempt : ℕ
  pub status : DeliveryStatus
  pub status_code : Option ℕ
  pub error : Option String
  pub next_retry_at : Option Time
  pub delivered_at : Option Time
  pub created_at : Time
