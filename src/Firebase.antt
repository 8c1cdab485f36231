-- ===== src/Firebase.antt =====
-- The Firebase client: backend/src/db/firebaseRestClient.js.
pub mod Rest
pub mod Isolation
pub mod Mock
pub mod Mocked
