-- ===== src/Worker.antt =====
-- backend/platform_delivery_worker.py and backend/platform_client.py: how one delivery is taken from
-- the queue, sent to the platform and settled.
pub mod Client
pub mod Publish
pub mod Loop
pub mod Codes
pub mod Settled
pub mod Tests
