-- ===== src/Notices.antt =====
-- The notification service (apps/notification-service/src).
pub mod Types
pub mod Sending
pub mod Consumers
mod Tests
