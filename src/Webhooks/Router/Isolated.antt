-- ===== src/Webhooks/Router/Isolated.antt =====
-- Who writes the endpoints of an organization: the routes of webhooks/router.py.jinja that change
-- the table, taken together.
use python_backend_manager.Prelude.Base.{
  String, ◌≡◌, ◌≢◌, refl, true, false, not, Option, none, some, List, [], ◌∷◌, ◌==◌, arith, any,
  All, keep, update_where, Bool-cases, inl, inr,
}
use mathlib.Core.Path.{subst}
use python_backend_manager.Prelude.Uuid.{Uuid}
use python_backend_manager.Tenancy.Models.{Membership}
use python_backend_manager.Tenancy.Router.{get_current_membership}
use python_backend_manager.Rbac.Permissions.{require_role}
use python_backend_manager.Webhooks.Models.{WebhookEndpoint}
use python_backend_manager.Webhooks.Router.{
  WebhookEndpointCreate, WebhookEndpointUpdate, Endpoints, Reply, get_endpoint, changed, stored,
  created, update_found, updated, delete_found, as_admin, create_webhook_endpoint,
  update_webhook_endpoint, delete_webhook_endpoint, is_endpoint,
}

-- A request that writes.
pub data EndpointRequest : Type 0 where
  create : WebhookEndpointCreate → Uuid → String → EndpointRequest
  update : Uuid → WebhookEndpointUpdate → EndpointRequest
  delete : Uuid → EndpointRequest

unfoldable pub write_endpoints :
    Uuid → Uuid → List Membership → EndpointRequest → Endpoints → Endpoints
write_endpoints org_id caller memberships (create payload id generated) endpoints =
    (create_webhook_endpoint org_id caller payload id generated memberships endpoints).1
write_endpoints org_id caller memberships (update id payload) endpoints =
    (update_webhook_endpoint org_id caller id payload memberships endpoints).1
write_endpoints org_id caller memberships (delete id) endpoints =
    (delete_webhook_endpoint org_id caller id memberships endpoints).1

-- The primary key.
abbrev pub HasUniqueIds : Endpoints → Type 0
HasUniqueIds [] = Unit
HasUniqueIds (e ∷ endpoints) = (any (λ f. f.id == e.id) endpoints ≡ false) × HasUniqueIds endpoints

-- The rows of an organization.
abbrev pub rows_of : Uuid → Endpoints → Endpoints
rows_of org endpoints = keep (λ e. e.organization_id == org) endpoints

-- A row with the id is one of the organization.
abbrev pub IsOwn : Uuid → Uuid → WebhookEndpoint → Type 0
IsOwn id org f = f.id ≡ id → f.organization_id ≡ org

none_with :
    (id org : Uuid) (endpoints : Endpoints)
    → any (λ f. f.id == id) endpoints ≡ false
    → All (IsOwn id org) endpoints
none_with id org [] h = tt
none_with id org (e ∷ endpoints) h =
    (λ same. absurd (ground (arith, h, same)), none_with id org endpoints (ground (arith, h)))

found-any :
    (org id : Uuid) (endpoints : Endpoints) (e : WebhookEndpoint)
    → get_endpoint org id endpoints ≡ some e
    → any (λ g. g.id == e.id) endpoints ≡ true
unfolding get_endpoint
found-any org id [] e h = cc
found-any org id (f ∷ endpoints) e h = ground (arith, found-any org id endpoints e)

found-IsOwn :
    (org id : Uuid) (endpoints : Endpoints) (e : WebhookEndpoint)
    → HasUniqueIds endpoints
    → get_endpoint org id endpoints ≡ some e
    → All (IsOwn e.id org) endpoints
unfolding get_endpoint
found-IsOwn org id [] e u h = tt
found-IsOwn org id (f ∷ endpoints) e u h = elim (Bool-cases (is_endpoint org id f)) [
  | inl here ↦
      let same : f ≡ e = ground (arith, here, h) in
      (
        λ i. ground (arith, here),
        none_with e.id org endpoints (
            subst (λ (v : WebhookEndpoint). any (λ g. g.id == v.id) endpoints ≡ false) {x = f}
              {y = e} (same) u.0),
      )
  | inr there ↦
      let later = rw there at h in
      (
        λ i. absurd (ground (arith, i, found-any org id endpoints e later, u.0)),
        found-IsOwn org id endpoints e u.1 later,
      )
]

update-kept :
    (org other id : Uuid) (payload : WebhookEndpointUpdate) (endpoints : Endpoints)
    → other ≢ org
    → All (IsOwn id org) endpoints
    → rows_of other (update_where (λ f. f.id == id) (changed payload) endpoints)
      ≡ rows_of other endpoints
unfolding changed
update-kept org other id payload [] differ own = refl
update-kept org other id payload (e ∷ endpoints) differ own =
    ground (arith, own.0, differ, update-kept org other id payload endpoints differ own.1)

delete-kept :
    (org other id : Uuid) (endpoints : Endpoints)
    → other ≢ org
    → All (IsOwn id org) endpoints
    → rows_of other (keep (λ f. not (f.id == id)) endpoints) ≡ rows_of other endpoints
delete-kept org other id [] differ own = refl
delete-kept org other id (e ∷ endpoints) differ own =
    ground (arith, own.0, differ, delete-kept org other id endpoints differ own.1)

module _ {ℓ} {A : Type ℓ} (write : Reply A × Endpoints) (endpoints : Endpoints) where
  as_admin-kept :
      (other : Uuid) (membership : Option Membership)
      → rows_of other write.1 ≡ rows_of other endpoints
      → rows_of other (as_admin membership write endpoints).1 ≡ rows_of other endpoints
  unfolding as_admin
  as_admin-kept other none h = refl
  as_admin-kept other (some m) h = elim (Bool-cases (require_role "admin" m.role)) [
    | inl admin ↦ rw admin h
    | inr refused ↦ rw refused refl
  ]

  as_admin-role :
      (membership : Option Membership)
      → (as_admin membership write endpoints).1 ≢ endpoints
      → (m : Membership) × (membership ≡ some m) × (require_role "admin" m.role ≡ true)
  unfolding as_admin
  as_admin-role none h = absurd (h refl)
  as_admin-role (some m) h = elim (Bool-cases (require_role "admin" m.role)) [
    | inl admin ↦ (m, refl, admin)
    | inr refused ↦ absurd (h (rw refused refl))
  ]

created-kept :
    (org other : Uuid) (payload : WebhookEndpointCreate) (id : Uuid) (generated : String)
    (endpoints : Endpoints)
    → other ≢ org
    → rows_of other (created org payload id generated endpoints).1 ≡ rows_of other endpoints
unfolding created stored
created-kept org other payload id generated endpoints differ = ground arith

updated-kept :
    (org other id : Uuid) (payload : WebhookEndpointUpdate) (found : Option WebhookEndpoint)
    (endpoints : Endpoints)
    → other ≢ org
    → HasUniqueIds endpoints
    → get_endpoint org id endpoints ≡ found
    → rows_of other (updated org id payload endpoints).1 ≡ rows_of other endpoints
unfolding updated update_found stored
updated-kept org other id payload none endpoints differ u is = ground (arith, is)
updated-kept org other id payload (some e) endpoints differ u is = ground (
  arith,
  is,
  update-kept org other e.id payload endpoints differ (found-IsOwn org id endpoints e u is),
)

deleted-kept :
    (org other : Uuid) (id : Uuid) (found : Option WebhookEndpoint) (endpoints : Endpoints)
    → other ≢ org
    → HasUniqueIds endpoints
    → get_endpoint org id endpoints ≡ found
    → rows_of other (delete_found found endpoints).1 ≡ rows_of other endpoints
unfolding delete_found
deleted-kept org other id none endpoints differ u is = refl
deleted-kept org other id (some e) endpoints differ u is =
    delete-kept org other e.id endpoints differ (found-IsOwn org id endpoints e u is)

-- A request on the endpoints of one organization leaves the endpoints of every other one as they
-- were, also where it names the id of one of theirs; and it changes something only where the caller
-- is a member of the organization with the role of an administrator or a higher one.
pub write_endpoints-authorized :
    (org caller : Uuid) (memberships : List Membership) (request : EndpointRequest)
    (endpoints : Endpoints)
    → HasUniqueIds endpoints
    → let endpoints' = write_endpoints org caller memberships request endpoints in
      ((other : Uuid) → other ≢ org → rows_of other endpoints' ≡ rows_of other endpoints)
      × (endpoints' ≢ endpoints
          → (m : Membership) × (get_current_membership org caller memberships ≡ some m)
            × (require_role "admin" m.role ≡ true))
unfolding write_endpoints create_webhook_endpoint update_webhook_endpoint delete_webhook_endpoint
write_endpoints-authorized org caller memberships (create payload id generated) endpoints u = (
  λ other differ.
      as_admin-kept _ endpoints other _
        (created-kept org other payload id generated endpoints differ),
  as_admin-role _ endpoints _,
)
write_endpoints-authorized org caller memberships (update id payload) endpoints u = (
  λ other differ.
      as_admin-kept _ endpoints other _
        (updated-kept org other id payload _ endpoints differ u refl),
  as_admin-role _ endpoints _,
)
write_endpoints-authorized org caller memberships (delete id) endpoints u = (
  λ other differ.
      as_admin-kept _ endpoints other _ (deleted-kept org other id _ endpoints differ u refl),
  as_admin-role _ endpoints _,
)
