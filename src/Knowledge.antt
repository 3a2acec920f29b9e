-- ===== src/Knowledge.antt =====
-- backend/knowledge_runs.py: the documents of rules, their versions, and the queue that indexes them. A
-- function is one transaction; the log lines that it writes are left out.
pub mod Tables
pub mod Create
pub mod Claim
pub mod Lease
pub mod Activate
pub mod Steps
pub mod Lookup
pub mod Consistent
pub mod Changes
pub mod Retire
pub mod Switches
pub mod Shut
pub mod Progress
pub mod Moves
pub mod Transactions
pub mod Uploads
pub mod Repeats
pub mod Runs
pub mod Tests
