-- ===== src/Webhooks/Router/Silenced.antt =====
-- An endpoint that is deleted or switched off gets nothing more: the routes of
-- webhooks/router.py.jinja with the task `deliver_webhook` of jobs/tasks.py.jinja.
use python_backend_manager.Prelude.Base.{
  ℕ, ◌≡◌, refl, false, not, Option, none, some, List, [], ◌∷◌, ◌==◌, arith, find_first,
  find_first-passes, keep, update_where, Bool-cases, inl, inr,
}
use python_backend_manager.Prelude.Uuid.{Uuid}
use python_backend_manager.Tenancy.Models.{Membership}
use python_backend_manager.Tenancy.Router.{get_current_membership}
use python_backend_manager.Webhooks.Models.{WebhookEndpoint, Delivery}
use python_backend_manager.Webhooks.Delivery.{World, deliver_to, deliver_webhook}
use python_backend_manager.Webhooks.Router.{
  WebhookEndpointUpdate, WebhookEndpointRead, Endpoints, done, get_endpoint, changed, stored,
  update_found, updated, delete_found, as_admin, update_webhook_endpoint, delete_webhook_endpoint,
  is_endpoint,
}

-- No row of the endpoint is active.
abbrev IsOff : Uuid → Option WebhookEndpoint → Type 0
IsOff id none = Unit {0}
IsOff id (some e) = e.active ≡ false

kept-IsOff :
    (id : Uuid) (endpoints : Endpoints)
    → find_first (λ e. e.id == id) (keep (λ f. not (f.id == id)) endpoints) ≡ none
kept-IsOff id [] = refl
kept-IsOff id (e ∷ endpoints) = ground (arith, kept-IsOff id endpoints)

changed-IsOff :
    (id : Uuid) (payload : WebhookEndpointUpdate) (endpoints : Endpoints)
    → payload.active ≡ some false
    → IsOff id
        (find_first (λ e. e.id == id) (update_where (λ f. f.id == id) (changed payload) endpoints))
unfolding changed
changed-IsOff id payload [] off = tt
changed-IsOff id payload (e ∷ endpoints) off = elim (Bool-cases (e.id == id)) [
  | inl here ↦ rw (here, off) (ground (arith, here, off))
  | inr there ↦ rw (there) (rw there (changed-IsOff id payload endpoints off))
]

deliver_to_off :
    (w : World) (job_try : ℕ) (d : Delivery) (id : Uuid) (found : Option WebhookEndpoint)
    → IsOff id found
    → (deliver_to w job_try d found).requests ≡ []
unfolding deliver_to
deliver_to_off w job_try d id none off = refl
deliver_to_off w job_try d id (some e) off = rw off refl

found_id :
    (org_id endpoint_id : Uuid) (endpoints : Endpoints) {e : WebhookEndpoint}
    → get_endpoint org_id endpoint_id endpoints ≡ some e
    → (e.id ≡ endpoint_id) × (e.organization_id ≡ org_id)
unfolding get_endpoint
found_id org_id endpoint_id endpoints {e} h =
    ground (arith, find_first-passes (is_endpoint org_id endpoint_id) endpoints {x = e} h)

deleted :
    (membership : Option Membership) (found : Option WebhookEndpoint)
    (endpoints endpoints' : Endpoints)
    → as_admin membership (delete_found found endpoints) endpoints ≡ (done tt, endpoints')
    → (e : WebhookEndpoint) × (found ≡ some e)
      × (endpoints' ≡ keep (λ f. not (f.id == e.id)) endpoints)
unfolding as_admin delete_found
deleted none found endpoints endpoints' h = absurd (ground arith)
deleted (some m) none endpoints endpoints' h = absurd (ground arith)
deleted (some m) (some e) endpoints endpoints' h = (e, refl, ground arith)

written :
    (membership : Option Membership) (org_id endpoint_id : Uuid) (payload : WebhookEndpointUpdate)
    (found : Option WebhookEndpoint) (endpoints endpoints' : Endpoints) (r : WebhookEndpointRead)
    → get_endpoint org_id endpoint_id endpoints ≡ found
    → as_admin membership (updated org_id endpoint_id payload endpoints) endpoints
      ≡ (done r, endpoints')
    → (e : WebhookEndpoint) × (found ≡ some e)
      × (endpoints' ≡ update_where (λ f. f.id == e.id) (changed payload) endpoints)
unfolding as_admin updated update_found stored
written none org_id endpoint_id payload found endpoints endpoints' r is h = absurd (ground arith)
written (some m) org_id endpoint_id payload none endpoints endpoints' r is h =
    absurd (ground (arith, is))
written (some m) org_id endpoint_id payload (some e) endpoints endpoints' r is h =
    (e, refl, ground (arith, is))

-- Once an endpoint is deleted, no delivery to it sends a request, those that the queue already
-- holds included, whatever their payload and attempt.
pub delete_webhook_endpoint-silences :
    (w : World) (org_id caller endpoint_id : Uuid) (memberships : List Membership)
    (endpoints endpoints' : Endpoints) (job_try : ℕ) (d : Delivery)
    → delete_webhook_endpoint org_id caller endpoint_id memberships endpoints
      ≡ (done tt, endpoints')
    → d.endpoint_id ≡ endpoint_id
    → (deliver_webhook w job_try d endpoints').requests ≡ []
unfolding delete_webhook_endpoint deliver_webhook
delete_webhook_endpoint-silences w org_id caller endpoint_id memberships endpoints endpoints'
      job_try d h to =
    let (e, found, rows) =
      deleted (get_current_membership org_id caller memberships)
        (get_endpoint org_id endpoint_id endpoints) endpoints endpoints' h in
    let same = (found_id org_id endpoint_id endpoints found).0 in
    rw (rows, same, to, kept-IsOff endpoint_id endpoints) (unfold deliver_to in refl)

-- The same holds once an update has switched the endpoint off.
pub update_webhook_endpoint-silences :
    (w : World) (org_id caller endpoint_id : Uuid) (payload : WebhookEndpointUpdate)
    (memberships : List Membership) (endpoints endpoints' : Endpoints) (r : WebhookEndpointRead)
    (job_try : ℕ) (d : Delivery)
    → payload.active ≡ some false
    → update_webhook_endpoint org_id caller endpoint_id payload memberships endpoints
      ≡ (done r, endpoints')
    → d.endpoint_id ≡ endpoint_id
    → (deliver_webhook w job_try d endpoints').requests ≡ []
unfolding update_webhook_endpoint deliver_webhook deliver_to
update_webhook_endpoint-silences w org_id caller endpoint_id payload memberships endpoints
      endpoints' r job_try d off h to =
    let (e, found, rows) =
      written (get_current_membership org_id caller memberships) org_id endpoint_id payload _
        endpoints endpoints' r refl h in
    let same = (found_id org_id endpoint_id endpoints found).0 in
    rw (rows, same, to)
      (deliver_to_off w job_try d endpoint_id _ (changed-IsOff endpoint_id payload endpoints off))
