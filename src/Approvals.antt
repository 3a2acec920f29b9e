-- ===== src/Approvals.antt =====
-- backend/approvals.py: what reviewers do with a proposal, and the publication of an approved one.
pub mod Tables
pub mod Context
pub mod Review
pub mod Cited
pub mod Text
pub mod Output
pub mod Trail
pub mod Chain
pub mod Actions
pub mod Publish
pub mod Authorized
pub mod Approved
pub mod Changes
pub mod Written
pub mod Steps
pub mod Queue
pub mod Decisions
pub mod Release
pub mod Tests
pub mod Restored
pub mod Replays
pub mod Repeats
