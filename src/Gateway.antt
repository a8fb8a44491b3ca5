-- ===== src/Gateway.antt =====
-- The API gateway (apps/api-gateway/src).
pub mod RateLimit
mod Tests
