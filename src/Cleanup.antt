-- ===== src/Cleanup.antt =====
-- The removal of files whose retention is over: backend/src/services/cleanupService.js.
pub mod Plan
pub mod Run
pub mod Candidates
pub mod Deletions
pub mod Outcomes
