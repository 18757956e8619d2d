-- ===== src/Storage.antt =====
-- Object storage: template/src/app/storage.
pub mod Keys
pub mod Client
mod Tests
