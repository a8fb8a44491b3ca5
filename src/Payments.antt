-- ===== src/Payments.antt =====
-- The payment service (apps/payment-service/src/payment).
pub mod Types
pub mod Gateways
pub mod Charging
pub mod Refunding
pub mod Idempotency
mod Tests
mod IdempotencyTests
