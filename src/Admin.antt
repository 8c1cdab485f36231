-- ===== src/Admin.antt =====
-- The administrators' accounts: backend/src/services/adminAuthService.js, with the
-- audit log of backend/src/services/auditService.js.
pub mod Login
pub mod Access
pub mod Audit
