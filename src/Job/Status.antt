-- ===== src/Job/Status.antt =====
-- Job statuses and the classes of them: JOB_STATUSES of backend/src/models/Job.js, the sets of
-- backend/src/queue/jobQueue.js, backend/src/services/jobControlService.js and
-- backend/src/services/cleanupService.js.
use ai_worker_platform.Common.{Bool, true, false}

pub data Status : Type 0 where
  queued validating filtering_sites loading_assets generating exporting : Status
  waiting_for_user_input cancelling completed completed_with_warning failed cancelled : Status
  cancelled_with_partial_result : Status

-- RUNNING_JOB_STATUSES.includes(status)
abbrev pub is_running_job : Status → Bool
is_running_job validating = true
is_running_job filtering_sites = true
is_running_job loading_assets = true
is_running_job generating = true
is_running_job exporting = true
is_running_job waiting_for_user_input = true
is_running_job _ = false

-- ACTIVE_STATUSES.has(status), ACTIVE_JOB_STATUSES.includes(status)
abbrev pub is_active : Status → Bool
is_active queued = true
is_active cancelling = true
is_active s = is_running_job s

-- TERMINAL_STATUSES.has(status), TERMINAL_JOB_STATUSES.includes(status)
abbrev pub is_terminal : Status → Bool
is_terminal completed = true
is_terminal completed_with_warning = true
is_terminal failed = true
is_terminal cancelled = true
is_terminal cancelled_with_partial_result = true
is_terminal _ = false

-- `status === 'queued'`
abbrev pub is_queued : Status → Bool
is_queued queued = true
is_queued _ = false

-- `status === 'cancelling'`
abbrev pub is_cancelling : Status → Bool
is_cancelling cancelling = true
is_cancelling _ = false

-- `status === 'failed'`
abbrev pub is_failed : Status → Bool
is_failed failed = true
is_failed _ = false
