-- ===== src/Queue/Lease.antt =====
-- Configuration, runtime identity and leases: the top of backend/src/queue/jobQueue.js.
use ai_worker_platform.Common.{
  ℕ, ◌+◌, max, Bool, true, false, ◌&&◌, Option, none, some, List, [], ◌∷◌, ◌++◌, ltb, if◌then◌else◌,
  same_id, or_else, any,
}
use ai_worker_platform.Job.Document.{
  QueueState, QueueRuntime, no_runtime, StatusEvent, EventType, JobDoc,
}
use ai_worker_platform.Job.Document

-- config.limits and config.queue
pub record Config : Type 0 where
  pub max_concurrent_jobs : ℕ
  pub lease_duration_ms : ℕ

-- getRuntimeIdentity()
pub record Identity : Type 0 where
  pub machine_id : ℕ
  pub runtime_instance_id : ℕ

unfoldable pub get_max_concurrent_jobs : Config → ℕ
get_max_concurrent_jobs c = max 1 c.max_concurrent_jobs

abbrev pub lease_expiry : Config → ℕ → ℕ
lease_expiry c now = now + c.lease_duration_ms

abbrev pub expires_after : Option ℕ → ℕ → Bool
expires_after none now = false
expires_after (some t) now = ltb now t

unfoldable pub is_lease_valid : QueueRuntime → ℕ → Bool
is_lease_valid runtime now = expires_after runtime.lease_expires_at now

unfoldable pub is_owned_by_this_runtime : Identity → QueueRuntime → Bool
is_owned_by_this_runtime me runtime =
    same_id runtime.machine_id (some me.machine_id)
    && same_id runtime.runtime_instance_id (some me.runtime_instance_id)

abbrev pub same_event_type : EventType → EventType → Bool
same_event_type Document.runtime_failed Document.runtime_failed = true
same_event_type Document.runtime_reconciled Document.runtime_reconciled = true
same_event_type Document.cancellation_requested Document.cancellation_requested = true
same_event_type Document.cancellation_completed Document.cancellation_completed = true
same_event_type _ _ = false

unfoldable pub append_event : List StatusEvent → StatusEvent → List StatusEvent
append_event events event =
    if any
      (λ item.
        same_event_type item.type event.type
        && same_id item.runtime_instance_id event.runtime_instance_id)
      events
    then events
    else events ++ (event ∷ [])

-- `job.queueRuntime || {}`
abbrev pub current_runtime : JobDoc → QueueRuntime
current_runtime job = or_else job.queue_runtime no_runtime

-- ['claimed', 'running'].includes(queueState)
abbrev pub is_claimed_or_running : Option QueueState → Bool
is_claimed_or_running (some QueueState.claimed) = true
is_claimed_or_running (some QueueState.running) = true
is_claimed_or_running _ = false

-- ['claimed', 'running', 'cancelling'].includes(queueState)
abbrev pub is_held : Option QueueState → Bool
is_held (some QueueState.claimed) = true
is_held (some QueueState.running) = true
is_held (some QueueState.cancelling) = true
is_held _ = false
