-- ===== src/Analysis.antt =====
-- backend/analysis_runs.py and backend/workflow_leases.py: the queue of analysis runs.
pub mod Tables
pub mod Queue
pub mod Selection
pub mod Advances
pub mod Runs
pub mod Steps
pub mod Sound
pub mod Tests
