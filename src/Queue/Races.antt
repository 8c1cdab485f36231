-- ===== src/Queue/Races.antt =====
-- What goes wrong in backend/src/queue/jobQueue.js where another function runs between the parts
-- of an asynchronous one.
use ai_worker_platform.Common.{
  ◌≡◌, ◌∷◌, none, ℕ, false, true, List, some, ◌≢◌, arith, Option, Bool, eqb_refl, ◌==◌, refl,
}
use ai_worker_platform.Common.Maps.{lookup, insert, lookup-insert}
use ai_worker_platform.Queue.Updates.{persist_queued, reconcile, is_held_now, queued_runtime}
use ai_worker_platform.Queue.Lease.{Identity, Config, current_runtime, is_held}
use ai_worker_platform.Queue.Control.{
  cancel_finish, reconcile_job, runtime_of, is_cancelling_runtime, index_of, splice,
}
use ai_worker_platform.Queue.Memory.{
  Runtime, drain_take, enqueue_finish, transact_job, Memory, is_here, Outcome, enqueue_job, admit,
}
use ai_worker_platform.Job.Document.{JobDoc, ReconciliationState}
use ai_worker_platform.Job.Status.{is_queued}
use ai_worker_platform.Common.Sets.{count, has, has_eq, count-push, has-remove_ne, remove, push}
use ai_worker_platform.Queue.Effects.{reconcile_job-memory, enqueue_job-memory}

-- An enqueueing that has passed its test, then a reconciliation of the same job, then the rest of
-- the enqueueing.
pub enqueue_around_reconcile : Identity → ℕ → ℕ → ℕ → Runtime → Runtime
enqueue_around_reconcile me now later job_id r =
    let r' = reconcile_job me now job_id r in
    let (r'', outcome) = transact_job job_id (persist_queued later none) r' in
    enqueue_finish later job_id false outcome r''

transact_job-some :
    (job_id : ℕ) (update : JobDoc → Option JobDoc) (r : Runtime) (job job' : JobDoc)
    → lookup job_id r.jobs ≡ some job
    → job.logical_deleted ≡ false
    → update job ≡ some job'
    → transact_job job_id update r ≡ (
      record r { jobs = insert job_id job' r.jobs },
      record { committed = true; snapshot = some job' },
    )
unfolding transact_job
transact_job-some job_id update r job job' found kept e = ground arith

reconcile_job-queued :
    (me : Identity) (now job_id : ℕ) (r : Runtime) (job : JobDoc)
    → has job_id r.memory.known_job_ids ≡ false
    → lookup job_id r.jobs ≡ some job
    → job.logical_deleted ≡ false
    → is_queued job.status ≡ true
    → is_held_now now (current_runtime job) ≡ false
    → ((reconcile_job me now job_id r).memory ≡ admit job_id r.memory)
      × ((reconcile_job me now job_id r).jobs
          ≡ insert job_id
              (record job {
                queue_runtime =
                    some
                      (queued_runtime (some ReconciliationState.recovered) (current_runtime job));
              })
              r.jobs)
unfolding reconcile_job reconcile
reconcile_job-queued me now job_id r job k found kept q h = ground arith

enqueue_finish-committed :
    (now job_id : ℕ) (r : Runtime) (outcome : Outcome)
    → outcome.committed ≡ true
    → (enqueue_finish now job_id false outcome r).memory ≡ admit job_id r.memory
unfolding enqueue_finish
enqueue_finish-committed now job_id r outcome h = ground arith

-- After the reconciliation the job document is free, and the enqueueing writes it once more.
persist-reconciled :
    (later job_id : ℕ) (r' : Runtime) (job : JobDoc) (jobs : List (ℕ × JobDoc))
    → job.logical_deleted ≡ false
    → is_queued job.status ≡ true
    → is_held (current_runtime job).queue_state ≡ false
    → r'.jobs ≡ insert job_id job jobs
    → let (r'', outcome) = transact_job job_id (persist_queued later none) r' in
      (r''.memory ≡ r'.memory) × (outcome.committed ≡ true)
unfolding transact_job persist_queued
persist-reconciled later job_id r' job jobs kept q h e =
    ground (arith, lookup-insert job_id job_id job jobs, eqb_refl job_id)

admit_twice :
    (job_id : ℕ) (mem : Memory)
    → is_here job_id mem ≡ false
    → count job_id (admit job_id (admit job_id mem)).queued_job_ids ≡ 2
admit_twice job_id mem h = ground (
  arith,
  has_eq job_id mem.queued_job_ids,
  count-push job_id job_id mem.queued_job_ids,
  count-push job_id job_id (push job_id mem.queued_job_ids),
  eqb_refl job_id,
)

-- `enqueueJob` tests for a job that is already here before it waits for its transaction, and not
-- again after it. If the job, new and queued, is reconciled in between, it waits twice.
pub enqueue_race :
    (me : Identity) (now later job_id : ℕ) (r : Runtime) (job : JobDoc)
    → is_here job_id r.memory ≡ false
    → lookup job_id r.jobs ≡ some job
    → job.logical_deleted ≡ false
    → is_queued job.status ≡ true
    → is_held_now now (current_runtime job) ≡ false
    → count job_id (enqueue_around_reconcile me now later job_id r).memory.queued_job_ids ≡ 2
unfolding enqueue_around_reconcile
enqueue_race me now later job_id r job here found kept q h =
    let known : has job_id r.memory.known_job_ids ≡ false = ground arith in
    let (placed, stored) = reconcile_job-queued me now job_id r job known found kept q h in
    let (same, done) =
      persist-reconciled later job_id (reconcile_job me now job_id r) _ r.jobs kept q refl stored in
    let (r'', outcome) =
      transact_job job_id (persist_queued later none) (reconcile_job me now job_id r) in
    rw (enqueue_finish-committed later job_id r'' outcome done, same, placed)
      (admit_twice job_id r.memory here)

known_stays_out :
    (other : ℕ) (r : Runtime)
    → has other r.memory.known_job_ids ≡ true
    → ((me : Identity) (later : ℕ) → (reconcile_job me later other r).memory ≡ r.memory)
      × ((later : ℕ) (recovered : Bool) → (enqueue_job later other recovered r).memory ≡ r.memory)
known_stays_out other r k = (
  λ me later. ground (arith, reconcile_job-memory me later other r),
  λ later recovered. ground (arith, enqueue_job-memory later other recovered r),
)

drain_take-shifts :
    (c : Config) (mem rest : Memory) (first job_id : ℕ) (others : List ℕ)
    → mem.queued_job_ids ≡ first ∷ others
    → drain_take c mem ≡ some (job_id, rest)
    → rest ≡ record mem { queued_job_ids = others }
unfolding drain_take
drain_take-shifts c mem rest first job_id others q t = ground arith

index_of_second :
    (first job_id : ℕ) (others : List ℕ)
    → first ≢ job_id
    → index_of job_id (first ∷ job_id ∷ others) ≡ some 1
index_of_second first job_id others d = ground (arith, eqb_refl job_id)

cancel_finish-local :
    (now job_id index : ℕ) (outcome : Outcome) (r : Runtime)
    → is_cancelling_runtime now (runtime_of outcome) ≡ false
    → (cancel_finish now job_id true (some index) false outcome r).0.memory ≡ record (r.memory) {
      queued_job_ids = splice index r.memory.queued_job_ids;
      known_job_ids = remove job_id r.memory.known_job_ids;
    }
unfolding cancel_finish
cancel_finish-local now job_id index outcome r n = ground arith

-- A cancellation finds the index of its job, and waits. If the drain loop shifts the queue
-- meanwhile, the cancellation drops the job behind its own from the queue, and leaves its own there.
-- The job that is dropped stays known, so neither a reconciliation nor an enqueueing of this runtime
-- puts it back.
pub cancel_race :
    (c : Config) (mem : Memory) (now first job_id other : ℕ) (rest : List ℕ) (outcome : Outcome)
    (r : Runtime)
    → mem.queued_job_ids ≡ first ∷ job_id ∷ other ∷ rest
    → first ≢ job_id
    → (job_id == other) ≡ false
    → has other mem.known_job_ids ≡ true
    → drain_take c mem ≡ some (first, r.memory)
    → is_cancelling_runtime now (runtime_of outcome) ≡ false
    → let index = index_of job_id mem.queued_job_ids in
      let r' = (cancel_finish now job_id true index false outcome r).0 in
      (r'.memory.queued_job_ids ≡ job_id ∷ rest)
      × ((me : Identity) (later : ℕ) → (reconcile_job me later other r').memory ≡ r'.memory)
      × ((later : ℕ) (recovered : Bool) → (enqueue_job later other recovered r').memory ≡ r'.memory)
cancel_race c mem now first job_id other rest outcome r q d d' k t n =
    let shifted = drain_take-shifts c mem r.memory first first (job_id ∷ other ∷ rest) q t in
    let index = index_of_second first job_id (other ∷ rest) d in
    let done = cancel_finish-local now job_id 1 outcome r n in
    let known = has-remove_ne other job_id mem.known_job_ids d' in
    let r' = (cancel_finish now job_id true (some 1) false outcome r).0 in
    let still : has other r'.memory.known_job_ids ≡ true = ground (arith, done, shifted, known) in
    let (unreconciled, refused) = known_stays_out other r' still in
    rw (q, index) (ground (arith, done, shifted), unreconciled, refused)
