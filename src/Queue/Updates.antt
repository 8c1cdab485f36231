-- ===== src/Queue/Updates.antt =====
-- The updaters that backend/src/queue/jobQueue.js hands to `transactJob`, one function for each.
-- An updater reads the job document and returns the new document, or `none` for `undefined`,
-- which leaves the store as it is. Each is synchronous and takes the instant at which it runs.
use ai_worker_platform.Common.{
  ℕ, String, Bool, true, false, not, ◌&&◌, ◌||◌, Option, none, some, ltb, if◌then◌else◌, or_else,
  is_some,
}
use ai_worker_platform.Job.Status.{Status, is_active, is_terminal, is_queued, is_cancelling}
use ai_worker_platform.Job.Document.{
  QueueState, QueueRuntime, ReconciliationState, StatusEvent, EventType, JobError, JobDoc,
}
use ai_worker_platform.Queue.Lease.{
  Config, Identity, lease_expiry, is_lease_valid, is_owned_by_this_runtime, append_event,
  current_runtime, is_claimed_or_running, is_held,
}

-- The test of `claimJob`: another runtime holds the job under a lease that has not run out.
abbrev pub is_claimed_elsewhere : Identity → ℕ → QueueRuntime → Bool
is_claimed_elsewhere me now current =
    is_claimed_or_running current.queue_state
    && is_lease_valid current now
    && not (is_owned_by_this_runtime me current)

-- The test of `persistQueuedState`, `cancelQueuedJob` and `reconcileInterruptedJob`: some runtime
-- holds the job under a lease that has not run out.
abbrev pub is_held_now : ℕ → QueueRuntime → Bool
is_held_now now current = is_held current.queue_state && is_lease_valid current now

-- transactJob's own guard, before the updater.
unfoldable pub guarded : (JobDoc → Option JobDoc) → Option JobDoc → Option JobDoc
guarded updater none = none
guarded updater (some job) = if job.logical_deleted then none else updater job

-- claimJob
unfoldable pub claim : Config → Identity → ℕ → JobDoc → Option JobDoc
claim c me now job =
    let current = current_runtime job in
    if is_terminal job.status || not (is_queued job.status)
    then none
    else if is_claimed_elsewhere me now current
    then none
    else some (record job {
      queue_runtime = some (record current {
        queue_state = some QueueState.running;
        machine_id = some me.machine_id;
        runtime_instance_id = some me.runtime_instance_id;
        claimed_at =
            if is_some current.claimed_at && is_owned_by_this_runtime me current
            then current.claimed_at
            else some now;
        heartbeat_at = some now;
        lease_expires_at = some (lease_expiry c now);
        cancellation_requested = false;
      });
    })

-- renewLease
unfoldable pub renew : Config → Identity → ℕ → JobDoc → Option JobDoc
renew c me now job =
    let current = current_runtime job in
    if not (is_owned_by_this_runtime me current) || is_terminal job.status
    then none
    else some (record job {
      queue_runtime = some (record current {
        queue_state =
            some (if is_cancelling job.status then QueueState.cancelling else QueueState.running);
        heartbeat_at = some now;
        lease_expires_at = some (lease_expiry c now);
      });
    })

abbrev pub stopped_message : String
stopped_message = "Worker execution stopped without recording a terminal result."

abbrev pub unhandled_error : Identity → Bool → JobError
unhandled_error me has_error = record {
  code = "UNHANDLED_WORKER_ERROR";
  category = "internal";
  message = stopped_message;
  retryable = true;
  runtime_instance_id = if has_error then some me.runtime_instance_id else none;
  previous_machine_id = none;
  previous_runtime_instance_id = none;
}

abbrev pub runtime_event :
    EventType → Identity → ℕ → Option ℕ → Option ℕ → Option Status → StatusEvent
runtime_event type me now machine instance final = record {
  type = type;
  created_at = now;
  machine_id = some me.machine_id;
  runtime_instance_id = some me.runtime_instance_id;
  previous_machine_id = machine;
  previous_runtime_instance_id = instance;
  requested_by = none;
  reason_code = none;
  reason_text = none;
  final_status = final;
}

-- The failure that finalizeClaim records for a worker that stopped without a terminal result.
abbrev pub mark_failed : Identity → ℕ → Bool → JobDoc → JobDoc
mark_failed me now has_error job = record job {
  status = Status.failed;
  completed_at = some now;
  final_worker_summary = stopped_message;
  error = some (unhandled_error me has_error);
  status_events =
      append_event job.status_events (runtime_event EventType.runtime_failed me now none none none);
}

-- finalizeClaim
unfoldable pub finalize : Identity → ℕ → Bool → JobDoc → Option JobDoc
finalize me now has_error job =
    let current = current_runtime job in
    if not (is_owned_by_this_runtime me current)
    then none
    else let updated = if is_active job.status then mark_failed me now has_error job else job in
      some (record updated {
        queue_runtime = some (record current {
          queue_state = some QueueState.terminal;
          heartbeat_at = some now;
          lease_expires_at = none;
        });
      })

-- The runtime fields of a job that waits for any runtime.
abbrev pub queued_runtime : Option ReconciliationState → QueueRuntime → QueueRuntime
queued_runtime state current = record current {
  queue_state = some QueueState.queued;
  machine_id = none;
  runtime_instance_id = none;
  claimed_at = none;
  heartbeat_at = none;
  lease_expires_at = none;
  reconciliation_state = state;
  cancellation_requested = false;
}

-- persistQueuedState
unfoldable pub persist_queued : ℕ → Option ReconciliationState → JobDoc → Option JobDoc
persist_queued now state job =
    let current = current_runtime job in
    if is_terminal job.status
    then none
    else if is_held_now now current
    then none
    else some
        (record job { status = Status.queued; queue_runtime = some (queued_runtime state current) })

-- cancelQueuedJob
unfoldable pub cancel : ℕ → Bool → JobDoc → Option JobDoc
cancel now allow_running job =
    let current = current_runtime job in
    let running = is_held_now now current in
    if is_terminal job.status
    then none
    else if not allow_running && (not (is_queued job.status) || is_held current.queue_state)
    then none
    else some (record job {
      queue_runtime = some (record current {
        queue_state = some (if running then QueueState.cancelling else QueueState.terminal);
        heartbeat_at = some now;
        lease_expires_at = if running then current.lease_expires_at else none;
        cancellation_requested = true;
      });
    })

abbrev pub has_outputs : JobDoc → Bool
has_outputs job = ltb 0 (or_else job.output_file_count 0)

-- The status in which reconciliation leaves a job that was interrupted while it ran.
abbrev pub interrupted_status : JobDoc → Status
interrupted_status job =
    if is_cancelling job.status
    then (if has_outputs job then Status.cancelled_with_partial_result else Status.cancelled)
    else Status.failed

abbrev pub interrupted_message : JobDoc → String
interrupted_message job =
    if is_cancelling job.status
    then "Cancellation completed during restart reconciliation because the worker lease expired."
    else "Worker execution was interrupted and cannot be resumed safely; rerun the job when ready."

abbrev pub interrupted_error : JobDoc → QueueRuntime → JobError
interrupted_error job current = record {
  code = "WORKER_INTERRUPTED_BY_RESTART";
  category = "internal";
  message = interrupted_message job;
  retryable = true;
  runtime_instance_id = none;
  previous_machine_id = current.machine_id;
  previous_runtime_instance_id = current.runtime_instance_id;
}

-- The part of reconcileInterruptedJob's updater for a job that is not queued.
abbrev pub mark_interrupted : Identity → ℕ → QueueRuntime → JobDoc → JobDoc
mark_interrupted me now current job = record job {
  status = interrupted_status job;
  completed_at = some now;
  cancelled_at = if is_cancelling job.status then some now else job.cancelled_at;
  final_worker_summary = interrupted_message job;
  error = if is_cancelling job.status then job.error else some (interrupted_error job current);
  status_events = append_event job.status_events (
      runtime_event EventType.runtime_reconciled me now current.machine_id
        current.runtime_instance_id (some (interrupted_status job)));
  queue_runtime = some (record current {
    queue_state = some QueueState.terminal;
    heartbeat_at = some now;
    lease_expires_at = none;
    reconciliation_state = some ReconciliationState.recovered;
  });
}

-- reconcileInterruptedJob
unfoldable pub reconcile : Identity → ℕ → JobDoc → Option JobDoc
reconcile me now job =
    let current = current_runtime job in
    if not (is_active job.status)
    then none
    else if is_held_now now current
    then none
    else if is_queued job.status
    then some (record job {
      queue_runtime = some (queued_runtime (some ReconciliationState.recovered) current);
    })
    else some (mark_interrupted me now current job)

-- shutdownQueue, for one active job
unfoldable pub release : Identity → ℕ → JobDoc → Option JobDoc
release me now job =
    let current = current_runtime job in
    if not (is_owned_by_this_runtime me current)
    then none
    else some (record job {
      queue_runtime = some (record current {
        heartbeat_at = some now;
        lease_expires_at = some now;
        reconciliation_state = some ReconciliationState.pending;
      });
    })
