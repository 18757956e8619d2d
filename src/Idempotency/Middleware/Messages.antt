-- ===== src/Idempotency/Middleware/Messages.antt =====
-- The ASGI messages and the application, as far as the middleware reads them.
use python_backend_manager.Prelude.Base.{ℕ, zero, suc, Bool, Option, List, [], ◌∷◌}
use python_backend_manager.Prelude.Bytes.{Bytes, CodePoints}

-- What `receive` gives: a part of the body, or any other message, which ends the buffering.
pub data Message : Type 0 where
  request : Bytes → Bool → Message
  disconnect : Message

-- What the application sends.
pub data Sent : Type 0 where
  start : ℕ → List (Bytes × Bytes) → Sent
  part : Bytes → Sent

pub record Scope : Type 0 where
  pub is_http : Bool
  pub method : Bytes
  pub path : CodePoints
  pub headers : List (Bytes × Bytes)
  pub client : Option CodePoints

abbrev pub Receive : Type 0
Receive = ℕ → Message

-- One run of the application: what it sends, and whether it raises at the end.
pub record Run : Type 0 where
  pub sent : List Sent
  pub raised : Bool

abbrev pub App : Type 0
App = Scope → Receive → Run

pub record Settings : Type 0 where
  pub ttl_seconds : ℕ
  pub max_body_bytes : ℕ

abbrev pub nth_or : List Message → ℕ → Message → Message
nth_or [] n d = d
nth_or (m ∷ ms) zero d = m
nth_or (m ∷ ms) (suc n) d = nth_or ms n d
