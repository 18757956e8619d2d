-- ===== src/Webhooks/Models.antt =====
-- The rows of webhooks/models.py, and the arguments of a delivery. The data of an event is its JSON
-- text.
use python_backend_manager.Prelude.Base.{ℕ, String, Bool, Option}
use python_backend_manager.Prelude.Bytes.{CodePoints}
use python_backend_manager.Prelude.Uuid.{Uuid}

pub record WebhookEndpoint : Type 0 where
  pub id : Uuid
  pub organization_id : Uuid
  pub url : String
  pub event_types : CodePoints
  pub secret : String
  pub active : Bool

pub record Payload : Type 0 where
  pub id : CodePoints
  pub event_type : CodePoints
  pub organization_id : Option Uuid
  pub data_text : String

pub record OutboxEvent : Type 0 where
  pub id : Uuid
  pub source : CodePoints
  pub event_id : CodePoints
  pub event_type : CodePoints
  pub organization_id : Option Uuid
  pub payload : Payload
  pub attempts : ℕ
  pub last_error : Option String
  pub published_at : Option ℕ
  pub failed_at : Option ℕ
  pub created_at : ℕ

-- The arguments of a "deliver_webhook" task.
pub record Delivery : Type 0 where
  pub endpoint_id : Uuid
  pub event_type : CodePoints
  pub payload : Payload
