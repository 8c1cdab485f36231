-- ===== src/Queue/Machine.antt =====
-- One runtime of backend/src/queue/jobQueue.js as a machine: a drain loop takes one step at a time,
-- and between its steps, at every `await`, any other function of the queue may run. The drain loop
-- is the only function that is taken apart: an enqueueing, a reconciliation, a renewal, the end of an
-- execution and a cancellation are one event each, although the source awaits their transactions.
-- These transactions resolve; only the claim of the drain loop may throw. Between two events
-- any other process may write any job document.
use ai_worker_platform.Common.{none, if◌then◌else◌, [], List, ℕ, Bool, false, not, some, suc, zero}
use ai_worker_platform.Queue.Memory.{
  Memory, Runtime, drain_begin, drain_take, drain_end, enqueue_job, drain_claimed, transact_job,
  execute_finish, with_memory,
}
use ai_worker_platform.Queue.Lease.{Config, Identity}
use ai_worker_platform.Job.Document.{JobDoc}
use ai_worker_platform.Queue.Control.{reconcile_job, renew_lease, cancel_queued_job}
use ai_worker_platform.Queue.Updates.{claim}
use ai_worker_platform.Common.Sets.{has}
use ai_worker_platform.Common.Maps.{insert}

-- Where the drain loop stands with the job that it shifted off the queue.
pub data Claim : Type 0 where
  idle : Claim
  asked : ℕ → Claim
  answered : ℕ → Bool → Claim

pub record Machine : Type 0 where
  pub runtime : Runtime
  pub claim : Claim

abbrev pub memory_of : Machine → Memory
memory_of m = m.runtime.memory

abbrev pub with_runtime : Runtime → Machine → Machine
with_runtime r m = record m { runtime = r }

-- The `finally` of drainQueue
unfoldable pub drain_throws : Memory → Memory
drain_throws m = record m { drain_in_progress = false }

-- One step of the loop of drainQueue, which exists while `drainInProgress` is set. If the claim that
-- it awaits throws, having claimed nothing, the loop is left by its `finally`.
unfoldable pub drain_step : Config → Identity → ℕ → Bool → Machine → Machine
unfolding drain_take drain_end drain_claimed drain_throws transact_job claim
drain_step c me now throws m = elim m.claim [
  | asked job_id ↦
      (let (r, outcome) = transact_job job_id (claim c me now) m.runtime in
        if throws
        then record {
          runtime = with_memory (drain_throws m.runtime.memory) m.runtime;
          claim = idle;
        }
        else record { runtime = r; claim = answered job_id outcome.committed })
  | answered job_id claimed ↦ record {
    runtime = drain_claimed now job_id claimed m.runtime;
    claim = idle;
  }
  | idle ↦
      if not m.runtime.memory.drain_in_progress then m else elim (drain_take c m.runtime.memory) [
        | none ↦ with_runtime (with_memory (drain_end m.runtime.memory).0 m.runtime) m
        | some (job_id, rest) ↦ record {
          runtime = with_memory rest m.runtime;
          claim = asked job_id;
        }
      ]
]

pub data Event : Type 0 where
  drains : Event
  steps_drain : Bool → Event
  enqueues : ℕ → Bool → Event
  reconciles renews : ℕ → Event
  finishes : ℕ → Bool → Event
  cancels : ℕ → Bool → Event
  writes_elsewhere : ℕ → JobDoc → Event

-- One event of a runtime with one drain loop. An execution can finish only while its job is active.
-- What another process writes to a document is an event that leaves the runtime alone.
unfoldable pub fire : Config → Identity → ℕ → Event → Machine → Machine
unfolding drain_step drain_begin enqueue_job reconcile_job renew_lease execute_finish
    cancel_queued_job
fire c me now drains m = with_runtime (with_memory (drain_begin m.runtime.memory).0 m.runtime) m
fire c me now (steps_drain throws) m = drain_step c me now throws m
fire c me now (enqueues job_id recovered) m =
    with_runtime (enqueue_job now job_id recovered m.runtime) m
fire c me now (reconciles job_id) m = with_runtime (reconcile_job me now job_id m.runtime) m
fire c me now (renews job_id) m = with_runtime (renew_lease c me now job_id m.runtime) m
fire c me now (finishes job_id has_error) m =
    if has job_id m.runtime.memory.active_job_ids
    then with_runtime (execute_finish me now job_id has_error m.runtime) m
    else m
fire c me now (cancels job_id allow_running) m =
    with_runtime (cancel_queued_job now job_id allow_running m.runtime).0 m
fire c me now (writes_elsewhere job_id job) m =
    with_runtime (record (m.runtime) { jobs = insert job_id job m.runtime.jobs }) m

abbrev pub empty_memory : Memory
empty_memory = record {
  queued_job_ids = [];
  active_job_ids = [];
  known_job_ids = [];
  heartbeat_timers = [];
  drain_in_progress = false;
  drain_requested = false;
}

-- A runtime that has just started, on any database.
abbrev pub started : List (ℕ × JobDoc) → Machine
started jobs = record {
  runtime = record { memory = empty_memory; jobs = jobs; states = []; published = [] };
  claim = idle;
}

-- drainQueue run to its end with no other function between its steps; `fuel` bounds the steps, and
-- `throws` says of each of them whether its claim throws.
unfoldable pub drain_loop : Config → Identity → ℕ → (ℕ → Bool) → ℕ → Machine → Machine
drain_loop c me now throws zero m = m
drain_loop c me now throws (suc fuel) m =
    let rest = drain_loop c me now throws fuel (drain_step c me now (throws fuel) m) in
    if m.runtime.memory.drain_in_progress then rest else m
