-- ===== src/Control/Cancellation.antt =====
-- buildCancellationMetadata and appendStatusEvent of backend/src/services/jobControlService.js.
use ai_worker_platform.Common.{
  [], ◌∷◌, none, some, if◌then◌else◌, List, Option, String, ℕ, any, or_option, ◌++◌,
}
use ai_worker_platform.Job.Document.{EventType, ReasonCode, Cancellation, StatusEvent}
use ai_worker_platform.Job.Status.{Status}
use ai_worker_platform.Queue.Lease.{same_event_type}

-- What normalizeCancellationReason returns, less the label; an empty text is `none`.
pub record Reason : Type 0 where
  pub reason_code : ReasonCode
  pub reason_text : Option String

-- buildCancellationMetadata: a request that is on record already keeps its instant, its author and
-- its reason
unfoldable pub build_cancellation :
    Option Cancellation → ℕ → Option String → Reason → Option ℕ → Option Status → Cancellation
build_cancellation none requested_at requested_by reason completed_at final_status = record {
  requested_at = requested_at;
  requested_by = requested_by;
  reason_code = reason.reason_code;
  reason_text = reason.reason_text;
  completed_at = completed_at;
  final_status = final_status;
}
build_cancellation (some existing) requested_at requested_by reason completed_at final_status =
    record {
      requested_at = existing.requested_at;
      requested_by = or_option existing.requested_by requested_by;
      reason_code = existing.reason_code;
      reason_text = or_option existing.reason_text reason.reason_text;
      completed_at = or_option completed_at existing.completed_at;
      final_status = or_option final_status existing.final_status;
    }

-- appendStatusEvent: one event of a type at most is added
unfoldable pub append_status_event : List StatusEvent → StatusEvent → List StatusEvent
append_status_event events event =
    if any (λ item. same_event_type item.type event.type) events
    then events
    else events ++ (event ∷ [])

-- The payload of the two cancellation events.
abbrev pub cancellation_event :
    EventType → ℕ → Option String → ReasonCode → Option String → Option Status → StatusEvent
cancellation_event type created_at requested_by reason_code reason_text final_status = record {
  type = type;
  created_at = created_at;
  machine_id = none;
  runtime_instance_id = none;
  previous_machine_id = none;
  previous_runtime_instance_id = none;
  requested_by = requested_by;
  reason_code = some reason_code;
  reason_text = reason_text;
  final_status = final_status;
}
