-- ===== src/ApiKeys.antt =====
-- API keys: template/src/app/api_keys.
pub mod Keys
mod Tests
