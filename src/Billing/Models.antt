-- ===== src/Billing/Models.antt =====
-- The rows of billing: billing/models.py, and the columns of an organization in tenancy/models.py
-- that billing reads. A datetime is its unix time, so that `to_naive_utc` of billing/ports.py
-- leaves the number as it is.
pub use python_backend_manager.Tenancy.Models.{Organization}
use python_backend_manager.Prelude.Base.{ℕ, String, Option, List}
use python_backend_manager.Prelude.Uuid.{Uuid}

pub record Subscription : Type 0 where
  pub organization_id : Uuid
  pub provider : String
  pub provider_subscription_id : String
  pub status : String
  pub plan : String
  pub current_period_end : Option ℕ

pub record ProcessedEvent : Type 0 where
  pub provider : String
  pub event_id : String
  pub type : String

pub record Tables : Type 0 where
  pub organizations : List Organization
  pub subscriptions : List Subscription
  pub processed_events : List ProcessedEvent
