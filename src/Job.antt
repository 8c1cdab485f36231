-- ===== src/Job.antt =====
-- The job record that all parts share: backend/src/models/Job.js and the fields that
-- backend/src/queue/jobQueue.js and backend/src/services/jobControlService.js read and write.
pub mod Status
pub mod Document
pub mod Lifecycle
