-- ===== src/Rbac.antt =====
-- Roles: template/src/app/rbac.
pub mod Permissions
mod Tests
