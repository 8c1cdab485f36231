-- ===== src/Tree.antt =====
-- JSON trees addressed by slash-separated paths: backend/src/db/jsonTree.js.
pub mod Paths
pub mod Joining
pub mod Documents
pub mod Access
pub mod Patching
