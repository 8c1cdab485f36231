-- ===== src/Store.antt =====
-- The document store behind the job documents: backend/src/db/sqliteStore.js and the optimistic
-- save of backend/src/models/Job.js.
pub mod Sqlite
pub mod Transactions
pub mod Save
pub mod Merging
pub mod Records
pub mod Reading
pub mod Writing
pub mod RoundTrip
