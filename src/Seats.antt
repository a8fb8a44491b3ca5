-- ===== src/Seats.antt =====
-- The seat inventory service (apps/seat-inventory-service/src).
pub mod Types
pub mod Transactions
pub mod Locks
pub mod Availability
pub mod Inventory
pub mod ReadModel
pub mod Opening
pub mod Holds
pub mod Grpc
pub mod Expiry
pub mod Fixture
mod Tests
mod ReadModelTests
