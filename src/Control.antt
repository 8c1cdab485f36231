-- ===== src/Control.antt =====
-- Job control: backend/src/services/jobControlService.js, and cancelJob of
-- backend/src/services/jobService.js.
pub mod Text
pub mod Keys
pub mod Reservation
pub mod Identifiers
pub mod Cancellation
pub mod CancelJob
pub mod Outcomes
