-- ===== src/Users.antt =====
-- Users and their login sessions: template/src/app/users.
pub mod Sessions
pub mod AccessTokens
pub mod Manager
mod Tests
