-- ===== src/Job/Document.antt =====
-- The job document of backend/src/models/Job.js. Instants are milliseconds, identifiers of jobs,
-- machines and runtime instances are numbers, and a field that may be null or absent is an
-- `Option`.
use ai_worker_platform.Common.{ℕ, String, Bool, false, Option, none, List}
use ai_worker_platform.Job.Status.{Status}

-- queueRuntime.queueState
pub data QueueState : Type 0 where
  queued claimed running cancelling terminal : QueueState

-- queueRuntime.reconciliationState
pub data ReconciliationState : Type 0 where
  recovered pending : ReconciliationState

pub record QueueRuntime : Type 0 where
  pub queue_state : Option QueueState
  pub machine_id : Option ℕ
  pub runtime_instance_id : Option ℕ
  pub claimed_at : Option ℕ
  pub heartbeat_at : Option ℕ
  pub lease_expires_at : Option ℕ
  pub reconciliation_state : Option ReconciliationState
  pub cancellation_requested : Bool

-- `{}`, which stands in for a missing queueRuntime
abbrev pub no_runtime : QueueRuntime
no_runtime = record {
  queue_state = none;
  machine_id = none;
  runtime_instance_id = none;
  claimed_at = none;
  heartbeat_at = none;
  lease_expires_at = none;
  reconciliation_state = none;
  cancellation_requested = false;
}

pub record JobError : Type 0 where
  pub code : String
  pub category : String
  pub message : String
  pub retryable : Bool
  pub runtime_instance_id : Option ℕ
  pub previous_machine_id : Option ℕ
  pub previous_runtime_instance_id : Option ℕ

-- The keys of CANCELLATION_REASON_LABELS.
pub data ReasonCode : Type 0 where
  requested_by_user wrong_inputs started_by_mistake long_running other : ReasonCode

pub data EventType : Type 0 where
  runtime_failed runtime_reconciled cancellation_requested cancellation_completed : EventType

pub record StatusEvent : Type 0 where
  pub type : EventType
  pub created_at : ℕ
  pub machine_id : Option ℕ
  pub runtime_instance_id : Option ℕ
  pub previous_machine_id : Option ℕ
  pub previous_runtime_instance_id : Option ℕ
  pub requested_by : Option String
  pub reason_code : Option ReasonCode
  pub reason_text : Option String
  pub final_status : Option Status

-- The object of buildCancellationMetadata, less its constant `source` and the label of its reason,
-- which its code determines. An empty text is `none`.
pub record Cancellation : Type 0 where
  pub requested_at : ℕ
  pub requested_by : Option String
  pub reason_code : ReasonCode
  pub reason_text : Option String
  pub completed_at : Option ℕ
  pub final_status : Option Status

-- The site counts that a skill's result leaves on the job.
pub record SiteCounts : Type 0 where
  pub requested : Option ℕ
  pub generated : Option ℕ
  pub review_required : Option ℕ
  pub approved_ignored : Option ℕ
  pub duplicate_blocked : Option ℕ
  pub failed : Option ℕ
  pub unaccounted : Option ℕ
  pub accounted : Option ℕ
  pub consistent : Option Bool
  pub matched : Option ℕ
  pub unmatched : Option ℕ

pub data WorkerType : Type 0 where
  skill pr_worker : WorkerType

pub record JobDoc : Type 0 where
  pub job_id : ℕ
  pub worker_id : Option ℕ
  pub worker_type : WorkerType
  pub status : Status
  pub created_at : ℕ
  pub started_at : Option ℕ
  pub completed_at : Option ℕ
  pub cancelled_at : Option ℕ
  pub output_file_count : Option ℕ
  pub warning_count : Option ℕ
  pub site_counts : SiteCounts
  pub final_worker_summary : String
  pub error : Option JobError
  pub status_events : List StatusEvent
  pub cancellation : Option Cancellation
  pub queue_runtime : Option QueueRuntime
  pub logical_deleted : Bool
