-- ===== src/Control/CancelJob.antt =====
-- cancelJob of backend/src/services/jobService.js. It reads the job, notes the request on its own
-- copy, asks the queue to cancel, and settles the copy by the queue's answer. The answer of
-- `cancelQueuedJob` is an argument here; the copy that is saved is the result.
use ai_worker_platform.Common.{none, some, if◌then◌else◌, Option, String, ℕ, or_option, ◌||◌, not}
use ai_worker_platform.Job.Document.{EventType, JobDoc, Cancellation}
use ai_worker_platform.Control.Cancellation.{
  build_cancellation, Reason, append_status_event, cancellation_event,
}
use ai_worker_platform.Job.Status.{Status, is_terminal, is_running_job, is_cancelling, is_queued}
use ai_worker_platform.Queue.Control.{CancelResult}
use ai_worker_platform.Queue.Updates.{has_outputs}

-- The message of the response, and the event that goes with it.
pub data Reply : Type 0 where
  already_recorded queued_cancelled requested already_in_progress orphan_resolved : Reply

-- The errors of cancelJob.
pub data CancelError : Type 0 where
  skill_cancellation_unsupported job_not_cancellable : CancelError

pub data CancelOutcome : Type 0 where
  unchanged : Reply → CancelOutcome
  saved : JobDoc → Reply → CancelOutcome
  refused : CancelError → CancelOutcome

-- The request: its instant, its author and its reason.
pub record Request : Type 0 where
  pub requested_at : ℕ
  pub requested_by : Option String
  pub reason : Reason

-- cancelJob before it calls the queue, for a job that is not terminal
abbrev pub note_request : Request → JobDoc → JobDoc
note_request q job = record job {
  cancellation =
      some (build_cancellation job.cancellation q.requested_at q.requested_by q.reason none none);
  status_events = append_status_event job.status_events (
      cancellation_event EventType.cancellation_requested q.requested_at q.requested_by
        q.reason.reason_code q.reason.reason_text none);
}

-- `job.cancellation.requestedBy` and the like, read from the copy.
abbrev pub recorded : Request → Option ℕ → Option Status → JobDoc → Cancellation
recorded q completed_at final_status job =
    build_cancellation job.cancellation q.requested_at q.requested_by q.reason completed_at
      final_status

abbrev pub cancelled_message : String
cancelled_message =
    "Task cancelled. Any completed partial output files have been preserved where available."

abbrev pub orphan_message : String
orphan_message =
    "Cancellation completed after runtime ownership was lost; no live worker process was found."

-- The branches that end the job: `status`, the instants, the summary, the metadata and the event.
abbrev pub complete : Request → ℕ → Status → String → JobDoc → JobDoc
complete q now final_status summary job =
    let metadata = recorded q (some now) (some final_status) job in
    record job {
      status = final_status;
      cancelled_at = some now;
      completed_at = some now;
      final_worker_summary = summary;
      cancellation = some metadata;
      status_events = append_status_event job.status_events (
          cancellation_event EventType.cancellation_completed now metadata.requested_by
            metadata.reason_code metadata.reason_text (some final_status));
    }

-- The last branch, for a job that waits but is not in this runtime's queue.
abbrev pub cancel_elsewhere : ℕ → JobDoc → JobDoc
cancel_elsewhere now job = record job {
  status = Status.cancelled;
  cancelled_at = some now;
  final_worker_summary = cancelled_message;
}

-- cancelJob after `await jobQueue.cancelQueuedJob`
unfoldable pub settle : Request → ℕ → CancelResult → JobDoc → CancelOutcome
unfolding build_cancellation append_status_event
settle q now answer copy =
    let job = record copy { queue_runtime = or_option answer.runtime copy.queue_runtime } in
    if answer.unsupported
    then refused skill_cancellation_unsupported
    else if answer.cancelled
    then saved (complete q now Status.cancelled cancelled_message job) queued_cancelled
    else if answer.running
    then saved (record job { status = Status.cancelling })
        (if answer.already_requested then already_in_progress else requested)
    else if is_running_job job.status || is_cancelling job.status
    then saved
        (complete q now
          (if has_outputs job then Status.cancelled_with_partial_result else Status.cancelled)
          orphan_message job)
        orphan_resolved
    else if not (is_queued job.status)
    then refused job_not_cancellable
    else saved (cancel_elsewhere now job) queued_cancelled

-- cancelJob
unfoldable pub cancel_job : Request → ℕ → CancelResult → JobDoc → CancelOutcome
unfolding settle
cancel_job q now answer job =
    if is_terminal job.status
    then unchanged already_recorded
    else settle q now answer (note_request q job)
