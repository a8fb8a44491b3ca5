-- ===== src/Auth.antt =====
-- The authentication service (apps/auth-service/src).
pub mod Types
pub mod Users
pub mod Tokens
pub mod Accounts
pub mod Fixture
mod Tests
