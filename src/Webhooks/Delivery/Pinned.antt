-- ===== src/Webhooks/Delivery/Pinned.antt =====
-- Where the requests of the delivery task go.
use python_backend_manager.Prelude.Base.{◌≡◌, true}
use python_backend_manager.Webhooks.Models.{WebhookEndpoint, Delivery}
use python_backend_manager.Webhooks.Egress.{PinnedTarget}
use python_backend_manager.Webhooks.Security.{verify_signature}
use python_backend_manager.Webhooks.Delivery.{Request, World}
use python_backend_manager.Webhooks.Egress.Pinning.{IsChecked}

module _ (w : World) where
  -- A request of a delivery to an endpoint: it is sent to a checked target, and is signed.
  abbrev pub IsPinned : WebhookEndpoint → Request → Type 0
  IsPinned endpoint q =
      (target : PinnedTarget) × IsChecked w.resolver endpoint.url target
      × (q.url ≡ target.url)
      × (q.host ≡ target.host_header)
      × (q.sni_hostname ≡ target.sni_hostname)
      × (verify_signature w.hexdigest endpoint.secret q.content q.signature ≡ true)
