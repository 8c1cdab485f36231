-- ===== src/Queue.antt =====
-- The durable job queue, backend/src/queue/jobQueue.js.
pub mod Lease
pub mod Updates
pub mod History
pub mod Exclusion
pub mod Recovery
pub mod Memory
pub mod Control
pub mod Effects
pub mod Machine
pub mod Loops
pub mod Single
pub mod Places
pub mod Capacity
pub mod Races
pub mod Draining
