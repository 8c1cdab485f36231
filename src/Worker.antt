-- ===== src/Worker.antt =====
-- What a runtime knows of the jobs that it runs: backend/src/services/workerStateService.js.
pub mod Phase
pub mod State
pub mod Progress
