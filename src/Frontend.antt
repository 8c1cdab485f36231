-- ===== src/Frontend.antt =====
-- The browser's side of a job: frontend/src/services/websocketClient.js and
-- frontend/src/views/shared/workerRuntime.js.
pub mod Socket
pub mod Reconnecting
pub mod Sessions
pub mod Listing
pub mod Finding
pub mod Messages
pub mod Panel
pub mod Viewing
pub mod Showing
pub mod Notices
pub mod Progress
