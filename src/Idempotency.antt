-- ===== src/Idempotency.antt =====
-- Idempotency keys: template/src/app/idempotency.
pub mod Store
pub mod Middleware
mod Tests
