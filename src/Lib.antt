-- ===== src/Lib.antt =====
-- Verification of the AI Worker Platform: its backend, and the browser's view of a job.
--
-- The platform runs jobs. A job is a document in a database. A runtime, which is one backend
-- process among several, queues jobs, claims a job under a lease, runs it by a skill, and keeps a
-- state for each worker; clients subscribe to jobs over WebSockets. A runtime that stops leaves its
-- jobs to be reconciled by another.
--
-- Common holds tests, lists, sets (arrays and JavaScript's Set) and maps (association lists).
--
-- Job, the document and its statuses: backend/src/models/Job.js.
--
-- Queue, backend/src/queue/jobQueue.js:
--   Lease, Updates: leases, and what each transaction of the queue makes of a document
--     (claimJob is `claim`, renewLease `renew`, finalizeClaim `finalize`, persistQueuedState
--     `persist_queued`, cancelQueuedJob `cancel`, reconcileInterruptedJob `reconcile`,
--     shutdownQueue `release`);
--   Memory, Control: the module's variables, and its functions over them, cut at each `await`;
--   Loops, Machine, Single: a runtime with all its drain loops, each of which takes one step at a
--     time or lets another function run, the same with one loop, and why the two agree;
--   History, Exclusion, Recovery: histories of transactions of any runtimes on one job;
--   Effects, Places, Capacity, Draining, Races: histories of one runtime.
--
-- Worker, the table of worker states: backend/src/services/workerStateService.js.
--
-- Tree, JSON values and slash-separated paths, backend/src/db/jsonTree.js: Paths and Joining are
-- `parts` and `join`; Documents, Access and Patching are validate, get, set and patch.
--
-- Store: Records, Reading, Writing and RoundTrip are `read`, `upsert` and `write` of
-- backend/src/db/sqliteStore.js at paths inside a document, over Tree; Sqlite and Transactions are
-- its revisions and `transact`, with a document as one value; Save and Merging are `save` of
-- backend/src/models/Job.js.
--
-- Subscriptions: Manager and Consistency are backend/src/websocket/subscriptionManager.js; Server
-- and Replies are the handlers of backend/src/websocket/server.js, with the snapshot of
-- backend/src/websocket/eventPublisher.js.
--
-- Control: Text, Keys, Reservation and Cancellation are backend/src/services/jobControlService.js,
-- with withJobIdReservation of backend/src/utils/jobIdGenerator.js; Identifiers is
-- reserveUniqueJobId of that file; CancelJob and Outcomes are
-- cancelJob of backend/src/services/jobService.js, which takes the answer of `cancelQueuedJob`.
--
-- Skill, the result of a skill and the job it ends: backend/src/skills/genericSkillRunner.js.
--
-- Query, the filters of documents: `matchFilter` of backend/src/models/compatibility.js.
--
-- Cleanup, the removal of files whose retention is over: backend/src/services/cleanupService.js.
--
-- Admin: Login and Access are logins and tokens, backend/src/services/adminAuthService.js; Audit is
-- backend/src/services/auditService.js.
--
-- Firebase, backend/src/db/firebaseRestClient.js: Rest and Isolation are transactionFirebase, over a
-- database that is a parameter; Mock and Mocked are the walks of its in-memory database.
--
-- Storage, the names of stored files: backend/src/utils/pathUtils.js.
--
-- JobService, backend/src/services/jobService.js: Files and Downloads are the availability of files
-- and their download, over the records of Cleanup; Pages is the paging of listJobs; Rerun and
-- Rerunning are the inputs of rerunJob; Failures, Diagnosis and Explained are getFailureSummary,
-- getFailureDiagnosis and serializeSafeError.
--
-- Frontend: Socket and Reconnecting are frontend/src/services/websocketClient.js, with the sockets
-- of the browser. Of frontend/src/views/shared/workerRuntime.js, Messages are the messages that
-- arrive; Sessions, Listing and Finding the list of a tab's running jobs; Panel, Viewing and Showing
-- the handlers; Notices and Progress the notices and the percentage.
--
-- Examples holds runs and instances on concrete data.
--
-- Conventions. Identifiers of jobs, machines, runtimes, clients, skills and documents are numbers,
-- instants are milliseconds, and a field that may be null or absent is an Option. An updater reads
-- the clock once. A transaction resolves, except a claim of the drain loop, which may throw, and
-- takes effect at one point: an updater that answers `none` writes
-- nothing, and a job that is missing or logically deleted is never handed to an updater. Code
-- between two `await`s is one function; what was awaited is an argument of the next.
--
-- Bounds. `transact` and `transaction_firebase` make as many attempts as they are given, 8 by
-- default (`max_retries`), and what others do to the store while they wait is a parameter.
-- `drain_loop` runs on fuel; three steps for each waiting job and four more are enough.
-- `first_free` tries as many numbers as the source, 1000 (`max_tries`).
--
-- A path has at most 1024 code units and a value at most 40 levels, as in the source.
--
-- Not modelled: arrays inside JSON values; writes of whole collections; redaction of texts; timers, HTTP, sockets and the file system, whose answers are arguments; the child
-- process of a skill, by what it leaves behind; the texts of error messages; the services named
-- in no file above.
pub mod Common
pub mod Job
pub mod Queue
pub mod Worker
pub mod Store
pub mod Subscriptions
pub mod Control
pub mod Skill
pub mod Tree
pub mod Firebase
pub mod Query
pub mod Cleanup
pub mod Admin
pub mod Storage
pub mod JobService
pub mod Frontend
pub mod Examples
