-- ===== src/JobService.antt =====
-- What the API tells of jobs: backend/src/services/jobService.js.
pub mod Files
pub mod Downloads
pub mod Pages
pub mod Rerun
pub mod Rerunning
pub mod Failures
pub mod Diagnosis
pub mod Explained
