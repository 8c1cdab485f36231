-- ===== src/Examples/Data.antt =====
-- The data of the examples.
use ai_worker_platform.Common.{◌+◌, [], none, some, ℕ, false}
use ai_worker_platform.Job.Document.{pr_worker, JobDoc, SiteCounts, QueueRuntime, QueueState}
use ai_worker_platform.Job.Status.{Status}
use ai_worker_platform.Queue.Lease.{Config, Identity}

abbrev pub config : Config
config = record { max_concurrent_jobs = 1; lease_duration_ms = 60000 }

abbrev pub here : Identity
here = record { machine_id = 1; runtime_instance_id = 11 }

abbrev pub there : Identity
there = record { machine_id = 2; runtime_instance_id = 22 }

abbrev pub no_counts : SiteCounts
no_counts = record {
  requested = none;
  generated = none;
  review_required = none;
  approved_ignored = none;
  duplicate_blocked = none;
  failed = none;
  unaccounted = none;
  accounted = none;
  consistent = none;
  matched = none;
  unmatched = none;
}

abbrev pub queued_job : ℕ → JobDoc
queued_job id = record {
  job_id = id;
  worker_id = some 7;
  worker_type = pr_worker;
  status = Status.queued;
  created_at = 5;
  started_at = none;
  completed_at = none;
  cancelled_at = none;
  output_file_count = some 0;
  warning_count = some 0;
  site_counts = no_counts;
  final_worker_summary = "";
  error = none;
  status_events = [];
  cancellation = none;
  queue_runtime = none;
  logical_deleted = false;
}

-- The runtime fields of a job that `me` claimed at an instant, under the lease of `config`.
abbrev pub held_runtime : Identity → ℕ → QueueState → QueueRuntime
held_runtime me at state = record {
  queue_state = some state;
  machine_id = some me.machine_id;
  runtime_instance_id = some me.runtime_instance_id;
  claimed_at = some at;
  heartbeat_at = some at;
  lease_expires_at = some (at + 60000);
  reconciliation_state = none;
  cancellation_requested = false;
}

abbrev pub claimed_job : ℕ → JobDoc
claimed_job id = record (queued_job id) {
  queue_runtime = some (held_runtime here 1000 QueueState.running);
}

abbrev pub generating_job : ℕ → JobDoc
generating_job id = record (claimed_job id) { status = Status.generating }

abbrev pub completed_job : ℕ → JobDoc
completed_job id = record (claimed_job id) { status = Status.completed; completed_at = some 2000 }
