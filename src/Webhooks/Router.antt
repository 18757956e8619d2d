-- ===== src/Webhooks/Router.antt =====
-- The endpoints of an organization: webhooks/router.py.jinja with the schemas of
-- webhooks/schemas.py, for a service with roles. `caller` is the id of the user who is logged in;
-- the key of a new row and the generated secret are arguments. The rows stand newest first. A text
-- that is longer than its column is a database error, as PostgreSQL has it.
pub mod Subscribed
pub mod Silenced
pub mod Isolated
mod Tests
use python_backend_manager.Prelude.Base.{
  ℕ, String, Bool, true, false, not, ◌&&◌, Option, none, some, List, [], ◌∷◌, ◌==◌, leb, length,
  keep, find_first, map, update_where, str_eq, if◌then◌else◌,
}
use mathlib.Core.List.{reverse}
use python_backend_manager.Prelude.Uuid.{Uuid}
use python_backend_manager.Prelude.Bytes.{CodePoints, codes}
use python_backend_manager.Prelude.Words.{split_words, join_words}
use python_backend_manager.Tenancy.Models.{Membership}
use python_backend_manager.Tenancy.Router.{get_current_membership}
use python_backend_manager.Rbac.Permissions.{require_role}
use python_backend_manager.Webhooks.Models.{WebhookEndpoint}

pub record WebhookEndpointCreate : Type 0 where
  pub url : String
  pub event_types : List CodePoints
  pub secret : Option String
  pub active : Bool

pub record WebhookEndpointUpdate : Type 0 where
  pub url : Option String
  pub event_types : Option (List CodePoints)
  pub active : Option Bool

pub record WebhookEndpointRead : Type 0 where
  pub id : Uuid
  pub organization_id : Uuid
  pub url : String
  pub secret : String
  pub event_types : List CodePoints
  pub active : Bool

-- The answers, by their status; `server_error` is a database error.
pub data Reply {ℓ} (A : Type ℓ) : Type ℓ where
  done : A → Reply A
  forbidden not_found unprocessable server_error : Reply A

abbrev pub Endpoints : Type 0
Endpoints = List WebhookEndpoint

-- `_to_read`
unfoldable pub to_read : WebhookEndpoint → WebhookEndpointRead
to_read e = record {
  id = e.id;
  organization_id = e.organization_id;
  url = e.url;
  secret = e.secret;
  event_types = split_words e.event_types;
  active = e.active;
}

abbrev pub is_endpoint : Uuid → Uuid → WebhookEndpoint → Bool
is_endpoint org_id endpoint_id e = e.id == endpoint_id && e.organization_id == org_id

-- `_get_endpoint`; `none` is the 404.
unfoldable pub get_endpoint : Uuid → Uuid → Endpoints → Option WebhookEndpoint
get_endpoint org_id endpoint_id endpoints = find_first (is_endpoint org_id endpoint_id) endpoints

-- The bounds of the schemas, and of the column `event_types`.
abbrev pub fits_optional : ℕ → Option String → Bool
fits_optional bound none = true
fits_optional bound (some text) = leb (length (codes text)) bound

abbrev pub some_types : Option (List CodePoints) → Bool
some_types none = true
some_types (some []) = false
some_types (some (t ∷ ts)) = true

unfoldable pub is_valid_create : WebhookEndpointCreate → Bool
is_valid_create payload =
    fits_optional 2048 (some payload.url)
    && some_types (some payload.event_types)
    && fits_optional 255 payload.secret

unfoldable pub is_valid_update : WebhookEndpointUpdate → Bool
is_valid_update payload = fits_optional 2048 payload.url && some_types payload.event_types

abbrev pub fits_column : CodePoints → Bool
fits_column event_types = leb (length event_types) 1024

-- `payload.secret or secrets.token_urlsafe(32)`
abbrev pub secret_or : Option String → String → String
secret_or none generated = generated
secret_or (some secret) generated = if str_eq secret "" then generated else secret

abbrev pub new_endpoint : Uuid → WebhookEndpointCreate → Uuid → String → WebhookEndpoint
new_endpoint org_id payload id generated = record {
  id = id;
  organization_id = org_id;
  url = payload.url;
  event_types = join_words payload.event_types;
  secret = secret_or payload.secret generated;
  active = payload.active;
}

-- `Depends(get_current_membership)`
abbrev pub as_member {ℓ} : {A : Type ℓ} → Option Membership → Reply A → Reply A
as_member none reply = not_found
as_member (some m) reply = reply

-- A write: its answer and the rows that it commits.
abbrev pub Write : Type 0
Write = Reply WebhookEndpointRead × Endpoints

-- The rows that are committed, with the row that is read back, where its texts fit.
unfoldable pub stored : WebhookEndpoint → Endpoints → Endpoints → Write
stored e written endpoints =
    if fits_column e.event_types then (done (to_read e), written) else (server_error, endpoints)

unfoldable pub created : Uuid → WebhookEndpointCreate → Uuid → String → Endpoints → Write
created org_id payload id generated endpoints =
    let e = new_endpoint org_id payload id generated in
    if is_valid_create payload
    then stored e (e ∷ endpoints) endpoints
    else (unprocessable, endpoints)

abbrev pub or_kept {ℓ} : {A : Type ℓ} → Option A → A → A
or_kept none old = old
or_kept (some new) old = new

abbrev pub joined_or : Option (List CodePoints) → CodePoints → CodePoints
joined_or none old = old
joined_or (some types) old = join_words types

unfoldable pub changed : WebhookEndpointUpdate → WebhookEndpoint → WebhookEndpoint
changed payload e = record e {
  url = or_kept payload.url e.url;
  event_types = joined_or payload.event_types e.event_types;
  active = or_kept payload.active e.active;
}

unfoldable pub update_found : WebhookEndpointUpdate → Option WebhookEndpoint → Endpoints → Write
update_found payload none endpoints = (not_found, endpoints)
update_found payload (some e) endpoints =
    stored (changed payload e) (update_where (λ f. f.id == e.id) (changed payload) endpoints)
      endpoints

unfoldable pub updated : Uuid → Uuid → WebhookEndpointUpdate → Endpoints → Write
updated org_id endpoint_id payload endpoints =
    if is_valid_update payload
    then update_found payload (get_endpoint org_id endpoint_id endpoints) endpoints
    else (unprocessable, endpoints)

unfoldable pub delete_found : Option WebhookEndpoint → Endpoints → Reply (Unit {0}) × Endpoints
delete_found none endpoints = (not_found, endpoints)
delete_found (some e) endpoints = (done tt, keep (λ f. not (f.id == e.id)) endpoints)

-- A guarded write: an administrator or an owner.
unfoldable pub as_admin {ℓ} :
    {A : Type ℓ} → Option Membership → Reply A × Endpoints → Endpoints → Reply A × Endpoints
as_admin none write endpoints = (not_found, endpoints)
as_admin (some m) write endpoints =
    if require_role "admin" m.role then write else (forbidden, endpoints)

unfoldable pub create_webhook_endpoint :
    Uuid → Uuid → WebhookEndpointCreate → Uuid → String → List Membership → Endpoints → Write
create_webhook_endpoint org_id caller payload id generated memberships endpoints =
    as_admin (get_current_membership org_id caller memberships)
      (created org_id payload id generated endpoints) endpoints

unfoldable pub list_webhook_endpoints :
    Uuid → Uuid → List Membership → Endpoints → Reply (List WebhookEndpointRead)
list_webhook_endpoints org_id caller memberships endpoints =
    as_member (get_current_membership org_id caller memberships)
      (done (map to_read (reverse (keep (λ e. e.organization_id == org_id) endpoints))))

abbrev pub read_found : Option WebhookEndpoint → Reply WebhookEndpointRead
read_found none = not_found
read_found (some e) = done (to_read e)

unfoldable pub get_webhook_endpoint :
    Uuid → Uuid → Uuid → List Membership → Endpoints → Reply WebhookEndpointRead
get_webhook_endpoint org_id caller endpoint_id memberships endpoints =
    as_member (get_current_membership org_id caller memberships)
      (read_found (get_endpoint org_id endpoint_id endpoints))

unfoldable pub update_webhook_endpoint :
    Uuid → Uuid → Uuid → WebhookEndpointUpdate → List Membership → Endpoints → Write
update_webhook_endpoint org_id caller endpoint_id payload memberships endpoints =
    as_admin (get_current_membership org_id caller memberships)
      (updated org_id endpoint_id payload endpoints) endpoints

unfoldable pub delete_webhook_endpoint :
    Uuid → Uuid → Uuid → List Membership → Endpoints → Reply (Unit {0}) × Endpoints
delete_webhook_endpoint org_id caller endpoint_id memberships endpoints =
    as_admin (get_current_membership org_id caller memberships)
      (delete_found (get_endpoint org_id endpoint_id endpoints) endpoints) endpoints
