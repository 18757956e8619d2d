-- ===== src/Billing.antt =====
-- Subscriptions and what they grant: template/src/app/billing.
pub mod Models
pub mod Ports
pub mod Adapters
pub mod Provider
pub mod Entitlements
pub mod Router
mod Tests
