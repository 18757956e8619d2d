-- ===== src/Webhooks.antt =====
-- Webhooks: template/src/app/webhooks.
pub mod Models
pub mod Outbox
pub mod Addresses
pub mod Internal
pub mod Egress
pub mod Security
pub mod Delivery
pub mod Router
mod Tests
