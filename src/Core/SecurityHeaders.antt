-- ===== src/Core/SecurityHeaders.antt =====
-- The hardening headers of every response: `SecurityHeadersMiddleware` of core/middleware.py.
-- A text that is a header's value is given by its code points, which Latin-1 writes as bytes; the
-- error of a text that Latin-1 cannot write is left out.
pub mod Defaults
use python_backend_manager.Prelude.Base.{
  ℕ, String, Bool, not, List, [], ◌∷◌, ◌++◌, map, any, str_eq, if◌then◌else◌,
}
use Prim.Native.String.{◌++◌ as append}
use python_backend_manager.Prelude.Bytes.{Bytes, codes, bytes_eq}
use python_backend_manager.Prelude.Text.{decimal}

abbrev pub Headers : Type 0
Headers = List (Bytes × Bytes)

pub data Message : Type 0 where
  response_start : ℕ → Headers → Message
  response_body : Bytes → Message

pub record SecurityHeadersMiddleware : Type 0 where
  pub csp : String
  pub hsts_max_age : ℕ
  pub include_hsts : Bool

abbrev pub has_name : Bytes → Bytes × Bytes → Bool
has_name name header = bytes_eq header.0 name

-- `MutableHeaders.setdefault`
unfoldable pub setdefault : Bytes → Bytes → Headers → Headers
setdefault name value headers =
    if any (has_name name) headers then headers else headers ++ (name, value) ∷ []

unfoldable pub set_csp : SecurityHeadersMiddleware → Headers → Headers
set_csp m headers =
    if str_eq m.csp ""
    then headers
    else setdefault (codes "content-security-policy") (codes m.csp) headers

abbrev pub max_age : ℕ → String
max_age seconds = append "max-age=" (append (decimal seconds) "; includeSubDomains")

unfoldable pub set_hsts : SecurityHeadersMiddleware → Headers → Headers
set_hsts m headers =
    if m.include_hsts
    then setdefault (codes "strict-transport-security") (codes (max_age m.hsts_max_age)) headers
    else headers

unfoldable pub send_with_headers : SecurityHeadersMiddleware → Message → Message
send_with_headers m (response_body body) = response_body body
send_with_headers m (response_start status headers) = response_start status (
    set_hsts m (
      set_csp m (
        setdefault (codes "referrer-policy") (codes "strict-origin-when-cross-origin") (
          setdefault (codes "x-frame-options") (codes "DENY")
            (setdefault (codes "x-content-type-options") (codes "nosniff") headers)))))

-- `__call__`: the messages of the application, in order, as they are sent on.
unfoldable pub call : SecurityHeadersMiddleware → Bool → List Message → List Message
call m is_http messages = if is_http then map (send_with_headers m) messages else messages
