-- ===== src/Storage.antt =====
-- Names of stored files: backend/src/utils/pathUtils.js.
pub mod Segments
pub mod Sanitized
