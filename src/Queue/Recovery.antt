-- ===== src/Queue/Recovery.antt =====
-- Every job that was started ends: finalization by its runtime, or reconciliation by any runtime
-- after the lease has run out.
use ai_worker_platform.Queue.Updates.{
  unhandled_error, claim, finalize, reconcile, release, is_held_now, has_outputs,
}
use ai_worker_platform.Queue.Lease.{
  Config, Identity, is_lease_valid, is_owned_by_this_runtime, current_runtime,
}
use Prim.Native.Nat.{ℕ}
use ai_worker_platform.Common.{
  Bool, ◌≡◌, some, true, false, or_else, arith, ◌≤◌, is_some, none, if◌then◌else◌, refl,
}
use ai_worker_platform.Job.Document.{JobError, JobDoc, QueueState}
use ai_worker_platform.Job.Status.{
  Status, is_active, is_terminal, is_queued, is_cancelling, is_running_job,
}

-- The runtime that owns a job can always finalize it. The job is then in a terminal status, with
-- its lease given back; a job that the worker had left active is failed as retryable, and a result
-- that the worker did record is not touched.
pub finalize_total :
    (me : Identity) (now : ℕ) (has_error : Bool) (job : JobDoc)
    → is_owned_by_this_runtime me (current_runtime job) ≡ true
    → (job' : JobDoc) × (finalize me now has_error job ≡ some job')
      × (is_terminal job'.status ≡ true)
      × ((current_runtime job').queue_state ≡ some QueueState.terminal)
      × ((current_runtime job').lease_expires_at ≡ none)
      × (is_terminal job.status ≡ true → job' ≡ record job { queue_runtime = job'.queue_runtime })
      × (is_active job.status ≡ true
          → (job'.status ≡ Status.failed)
            × (job'.completed_at ≡ some now)
            × ((e : JobError) × (job'.error ≡ some e)
                × (e.code ≡ "UNHANDLED_WORKER_ERROR")
                × (e.retryable ≡ true)))
unfolding finalize
finalize_total me now has_error job h = (
  or_else (finalize me now has_error job) job,
  ground arith,
  ground arith,
  ground arith,
  ground arith,
  ground arith,
  λ a. (ground arith, ground arith, (unhandled_error me has_error, ground arith, refl, refl)),
)

-- Any runtime can settle an active job that no live lease protects: a queued job is left free for
-- every runtime to claim at any later time, a job that was interrupted while it ran ends as failed,
-- and one that was being cancelled ends as cancelled, with a partial result if it had outputs.
pub reconcile_settles :
    (c : Config) (me : Identity) (now : ℕ) (job : JobDoc)
    → is_active job.status ≡ true
    → is_held_now now (current_runtime job) ≡ false
    → (job' : JobDoc) × (reconcile me now job ≡ some job')
      × (is_queued job.status ≡ true
          → (job'.status ≡ Status.queued)
            × ((other : Identity) (later : ℕ) → is_some (claim c other later job') ≡ true))
      × (is_cancelling job.status ≡ true
          → job'.status
            ≡ (if has_outputs job then Status.cancelled_with_partial_result else Status.cancelled))
      × (is_running_job job.status ≡ true → job'.status ≡ Status.failed)
unfolding reconcile claim
reconcile_settles c me now job a h = (
  or_else (reconcile me now job) job,
  ground arith,
  λ q. (ground arith, λ other later. ground arith),
  ground arith,
  ground arith,
)

-- Reconciling a second time, by any runtime at any time, changes nothing.
pub reconcile_idempotent :
    (me other : Identity) (now later : ℕ) (job job' : JobDoc)
    → reconcile me now job ≡ some job'
    → or_else (reconcile other later job') job' ≡ job'
unfolding reconcile
reconcile_idempotent me other now later job job' h = ground arith

-- After a shutdown no lease stands in the way: from the very instant of the shutdown on, any
-- runtime can settle the job.
pub release_recoverable :
    (c : Config) (me other : Identity) (now later : ℕ) (job job' : JobDoc)
    → release me now job ≡ some job'
    → is_active job.status ≡ true
    → now ≤ later
    → is_some (reconcile other later job') ≡ true
unfolding release reconcile is_lease_valid
release_recoverable c me other now later job job' h a l = ground arith
