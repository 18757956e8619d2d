-- ===== src/Core.antt =====
-- What every request passes: template/src/app/core.
pub mod SecurityHeaders
mod Tests
