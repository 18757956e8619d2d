-- ===== src/Webhooks/Delivery.antt =====
-- The task that delivers a webhook: `deliver_webhook` of jobs/tasks.py.jinja. Parameters are the
-- resolver, the HMAC, the JSON text of a payload, and the receiver, which answers a request with a
-- status, or not at all.
pub mod Pinned
use Prim.Native.String.{◌++◌ as append}
use python_backend_manager.Prelude.Base.{
  ℕ, ◌*◌, String, Bool, true, false, not, ◌&&◌, Option, none, some, List, [], ◌∷◌, ◌==◌, leb, ltb,
  find_first, if◌then◌else◌,
}
use python_backend_manager.Prelude.Uuid.{Uuid}
use python_backend_manager.Prelude.Bytes.{Bytes, CodePoints}
use python_backend_manager.Webhooks.Models.{WebhookEndpoint, Payload, Delivery}
use python_backend_manager.Webhooks.Egress.{
  Resolver, PinnedTarget, Checked, allowed, webhook_egress_error, raised, resolve_pinned_target,
}
use python_backend_manager.Webhooks.Security.{sign_payload}

-- A request that the task sends, without redirects.
pub record Request : Type 0 where
  pub url : String
  pub host : String
  pub sni_hostname : String
  pub signature : String
  pub event : CodePoints
  pub content : Bytes

-- The end of a run: `retry` is arq's `Retry` with its delay in seconds, `failed` an exception that
-- the task does not catch.
pub data Outcome : Type 0 where
  endpoint_unavailable blocked failed : Outcome
  delivered : ℕ → Outcome
  retry : ℕ → Outcome

-- The rows that the run writes to the audit log, by their actions.
pub data Action : Type 0 where
  delivery_blocked delivery_failed delivery_done : Action

pub record Run : Type 0 where
  pub outcome : Outcome
  pub requests : List Request
  pub audit : List Action

pub record World : Type 0 where
  pub resolver : Resolver
  pub hexdigest : String → Bytes → String
  pub dumps : Payload → Bytes
  pub post : Request → Option ℕ

-- `response.is_success`
abbrev pub is_success : ℕ → Bool
is_success status = leb 200 status && ltb status 300

module _ (w : World) where
  -- `f"sha256={sign_payload(secret, body)}"`
  unfoldable pub request_of : String → CodePoints → Payload → PinnedTarget → Request
  request_of secret event_type payload target = record {
    url = target.url;
    host = target.host_header;
    sni_hostname = target.sni_hostname;
    signature = append "sha256=" (sign_payload w.hexdigest secret (w.dumps payload));
    event = event_type;
    content = w.dumps payload;
  }

  -- `raise_for_status`, and the `httpx.HTTPError` of either.
  unfoldable pub answered : ℕ → Request → Option ℕ → Run
  answered job_try request none = record {
    outcome = retry (job_try * 5);
    requests = request ∷ [];
    audit = delivery_failed ∷ [];
  }
  answered job_try request (some status) =
      if is_success status
      then record {
        outcome = delivered status;
        requests = request ∷ [];
        audit = delivery_done ∷ [];
      }
      else record {
        outcome = retry (job_try * 5);
        requests = request ∷ [];
        audit = delivery_failed ∷ [];
      }

  unfoldable pub send_to : ℕ → String → CodePoints → Payload → Checked PinnedTarget → Run
  send_to job_try secret event_type payload (allowed target) =
      let request = request_of secret event_type payload target in
      answered job_try request (w.post request)
  send_to job_try secret event_type payload webhook_egress_error = record {
    outcome = blocked;
    requests = [];
    audit = delivery_blocked ∷ [];
  }
  send_to job_try secret event_type payload raised = record {
    outcome = failed;
    requests = [];
    audit = [];
  }

  unfoldable pub deliver_to : ℕ → Delivery → Option WebhookEndpoint → Run
  deliver_to job_try d none = record { outcome = endpoint_unavailable; requests = []; audit = [] }
  deliver_to job_try d (some endpoint) =
      if endpoint.active
      then send_to job_try endpoint.secret d.event_type d.payload
          (resolve_pinned_target w.resolver endpoint.url)
      else record { outcome = endpoint_unavailable; requests = []; audit = [] }

  unfoldable pub deliver_webhook : ℕ → Delivery → List WebhookEndpoint → Run
  deliver_webhook job_try d endpoints =
      deliver_to job_try d (find_first (λ e. e.id == d.endpoint_id) endpoints)
