-- ===== src/Events.antt =====
-- The event service (apps/event-service/src).
pub mod Types
pub mod Venues
pub mod Creation
mod Tests
