-- ===== src/Delivery.antt =====
-- backend/platform_delivery_runs.py: the queue of deliveries to the commerce platform. A function is
-- one transaction: `now` is the database's time in it, and an exception leaves the tables as they
-- were.
pub mod Tables
pub mod Claim
pub mod Finish
pub mod Steps
pub mod Moves
pub mod Respects
pub mod Constraints
pub mod Order
pub mod Versions
pub mod Permits
pub mod Ready
pub mod Leases
pub mod Outcomes
pub mod Tests
pub mod LeaseTests
pub mod Progress
