-- ===== src/Logistics.antt =====
-- backend/logistics.py and backend/logistics_models.py: shipments, returns, exception tasks and the
-- patrol. A handler is one transaction; `now` is what `utc_now` returns in it, and `err` carries the
-- status of the HTTP response.
pub mod States
pub mod Tables
pub mod Shipments
pub mod Returns
pub mod Tasks
pub mod Patrol
pub mod Steps
pub mod Changes
pub mod TaskChanges
pub mod Sound
pub mod Runs
pub mod TaskRuns
pub mod Dedupe
pub mod Final
pub mod History
pub mod Access
pub mod Tests
