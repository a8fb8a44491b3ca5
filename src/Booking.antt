-- ===== src/Booking.antt =====
-- The booking service (apps/booking-service/src).
pub mod Types
pub mod Tickets
pub mod Refund
pub mod Requests
pub mod Creation
pub mod Recovery
pub mod Delivery
mod Fixture
mod CreationTests
mod Tests
