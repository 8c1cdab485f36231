-- ===== src/Query.antt =====
-- The query layer over documents: backend/src/models/compatibility.js.
pub mod Filter
pub mod Meaning
