-- ===== src/Tenancy/Models.antt =====
-- The rows of tenancy/models.py.jinja, with the customer id that billing adds.
use python_backend_manager.Prelude.Base.{String, Option, List}
use python_backend_manager.Prelude.Uuid.{Uuid}
use python_backend_manager.Webhooks.Models.{OutboxEvent}

pub record Organization : Type 0 where
  pub id : Uuid
  pub name : String
  pub slug : String
  pub payments_customer_id : Option String

pub record Membership : Type 0 where
  pub organization_id : Uuid
  pub user_id : Uuid
  pub role : String

-- The tables that the routes use; of the users, their ids.
pub record Tables : Type 0 where
  pub users : List Uuid
  pub organizations : List Organization
  pub memberships : List Membership
  pub outbox_events : List OutboxEvent
