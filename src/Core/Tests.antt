-- ===== src/Core/Tests.antt =====
-- The theorems on the headers at a concrete response.
use python_backend_manager.Prelude.Base.{◌≡◌, true, [], ◌∷◌}
use python_backend_manager.Prelude.Bytes.{codes, bytes_eq}
use python_backend_manager.Core.SecurityHeaders.{
  SecurityHeadersMiddleware, Headers, response_start, send_with_headers,
}
use python_backend_manager.Core.SecurityHeaders.Defaults.{
  values_of, headers_of, send_with_headers-defaults,
}

abbrev production : SecurityHeadersMiddleware
production = record { csp = "frame-ancestors 'none'"; hsts_max_age = 60; include_hsts = true }

abbrev framed : Headers
framed = (codes "x-frame-options", codes "SAMEORIGIN") ∷ []

send_with_headers-defaults_example :
    values_of
      (codes "x-frame-options")
      (headers_of (send_with_headers production (response_start 200 framed)))
    ≡ codes "SAMEORIGIN" ∷ []
unfolding bytes_eq
send_with_headers-defaults_example =
    send_with_headers-defaults production (codes "x-frame-options") 200 framed
