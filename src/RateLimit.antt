-- ===== src/RateLimit.antt =====
-- Rate limiting: template/src/app/ratelimit.
pub mod Tiers
pub mod Plans
pub mod Dependencies
pub mod Limiter
pub mod Lockout
mod Tests
