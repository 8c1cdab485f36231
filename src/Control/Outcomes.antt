-- ===== src/Control/Outcomes.antt =====
-- What a cancellation does to a job, on every branch.
use ai_worker_platform.Common.{
  ◌≡◌, none, some, Option, ℕ, true, false, arith, or_else, or_option, String, if◌then◌else◌, ◌||◌,
  ◌&&◌, Option-cases, inl, inr,
}
use ai_worker_platform.Control.CancelJob.{
  cancel_job, Request, CancelError, Reply, refused, saved, unchanged,
  skill_cancellation_unsupported, already_recorded, queued_cancelled, cancel_elsewhere,
  note_request,
}
use ai_worker_platform.Job.Document.{Cancellation, JobDoc, ReasonCode}
use ai_worker_platform.Job.Status.{Status, is_queued, is_terminal, is_running_job, is_cancelling}
use ai_worker_platform.Queue.Control.{CancelResult}
use ai_worker_platform.Queue.Updates.{has_outputs}

-- A cancellation is refused only where the queue answered that the skill cannot be cancelled any
-- more; JOB_NOT_CANCELLABLE is never raised.
pub cancel_job-refused :
    (q : Request) (now : ℕ) (answer : CancelResult) (job : JobDoc) (e : CancelError)
    → cancel_job q now answer job ≡ refused e
    → (e ≡ skill_cancellation_unsupported) × (answer.unsupported ≡ true)
unfolding cancel_job
cancel_job-refused q now answer job e h = ground arith

-- A job is left as it is only if it was terminal, and the reply says so.
pub cancel_job-unchanged :
    (q : Request) (now : ℕ) (answer : CancelResult) (job : JobDoc) (r : Reply)
    → cancel_job q now answer job ≡ unchanged r
    → (is_terminal job.status ≡ true) × (r ≡ already_recorded)
unfolding cancel_job
cancel_job-unchanged q now answer job r h = ground arith

abbrev pub requested_at_of : Option Cancellation → Option ℕ
requested_at_of none = none
requested_at_of (some m) = some m.requested_at

abbrev pub final_status_of : Option Cancellation → Option Status
final_status_of none = none
final_status_of (some m) = m.final_status

abbrev pub requested_by_of : Option Cancellation → Option String
requested_by_of none = none
requested_by_of (some m) = m.requested_by

abbrev pub reason_code_of : Option Cancellation → Option ReasonCode
reason_code_of none = none
reason_code_of (some m) = some m.reason_code

-- A job that is saved was not terminal, and the queue did not answer that its skill cannot be
-- cancelled. It is cancelled if the queue answered that it took the job out; being cancelled if
-- the queue answered that it runs; else, if it ran or was being cancelled with no live worker, it is
-- cancelled, with a partial result exactly if it had outputs; and else it waited and is cancelled.
-- Its metadata keep the instant, the author and the code of the reason of the first request that
-- gave them, and its error, its number of outputs and its identity are as before.
pub cancel_job-saved :
    (q : Request) (now : ℕ) (answer : CancelResult) (job job' : JobDoc) (r : Reply)
    → cancel_job q now answer job ≡ saved job' r
    → (is_terminal job.status ≡ false)
      × (answer.unsupported ≡ false)
      × (job'.status ≡ (
          if answer.cancelled
          then Status.cancelled
          else if answer.running
          then Status.cancelling
          else if (is_running_job job.status || is_cancelling job.status) && has_outputs job
          then Status.cancelled_with_partial_result
          else Status.cancelled))
      × (requested_at_of job'.cancellation
          ≡ some (or_else (requested_at_of job.cancellation) q.requested_at))
      × (requested_by_of job'.cancellation
          ≡ or_option (requested_by_of job.cancellation) q.requested_by)
      × (reason_code_of job'.cancellation
          ≡ some (or_else (reason_code_of job.cancellation) q.reason.reason_code))
      × (job'.error ≡ job.error)
      × (job'.output_file_count ≡ job.output_file_count)
      × (job'.job_id ≡ job.job_id)
unfolding cancel_job
cancel_job-saved q now answer job job' r h = elim (Option-cases job.cancellation) [
  | inl e ↦ ground (arith, e)
  | inr (m, e) ↦ ground (arith, e)
]

-- A job that waits, but neither in this runtime's queue nor under a live lease, is cancelled
-- without an instant of completion, without a final status in its metadata and without the event
-- of completion, all of which every other branch that cancels a job records.
pub cancel_elsewhere_incomplete :
    (q : Request) (now : ℕ) (answer : CancelResult) (job : JobDoc)
    → is_queued job.status ≡ true
    → answer.unsupported ≡ false
    → answer.cancelled ≡ false
    → answer.running ≡ false
    → (job' : JobDoc) × (cancel_job q now answer job ≡ saved job' queued_cancelled)
      × (job'.status ≡ Status.cancelled)
      × (job'.completed_at ≡ job.completed_at)
      × (final_status_of job'.cancellation ≡ final_status_of job.cancellation)
unfolding cancel_job
cancel_elsewhere_incomplete q now answer job h u c r = (
  cancel_elsewhere now
      (record (note_request q job) { queue_runtime = or_option answer.runtime job.queue_runtime }),
  ground arith,
  ground arith,
  ground arith,
  ground arith,
)
