-- ===== src/Tenancy.antt =====
-- Organizations and their members: template/src/app/tenancy.
pub mod Models
pub mod Router
mod Tests
