-- ===== src/Admin.antt =====
-- The admin panel: template/src/app/admin.
pub mod Auth
mod Tests
