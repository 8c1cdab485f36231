-- ===== src/Queue/Memory.antt =====
-- The module-level variables of backend/src/queue/jobQueue.js, the state of one runtime, and the
-- synchronous segments of its asynchronous functions: what runs between two `await`s is one
-- function, and the segments after an `await` take the result of what was awaited.
use ai_worker_platform.Common.Sets.{has, push, add, remove}
use ai_worker_platform.Common.{
  if◌then◌else◌, Bool, List, Option, ℕ, false, none, not, some, true, ◌||◌, ltb, ◌&&◌, ◌++◌, ◌∷◌,
  [], length,
}
use ai_worker_platform.Worker.Phase
use ai_worker_platform.Queue.Updates.{finalize, guarded, persist_queued}
use ai_worker_platform.Worker.State.{create_state, set_phase, States}
use ai_worker_platform.Queue.Lease.{get_max_concurrent_jobs, Config, Identity}
use ai_worker_platform.Job.Status.{Status, is_queued}
use ai_worker_platform.Job.Document.{JobDoc, ReconciliationState}
use ai_worker_platform.Common.Maps.{lookup, insert}

pub record Memory : Type 0 where
  pub queued_job_ids : List ℕ
  pub active_job_ids : List ℕ
  pub known_job_ids : List ℕ
  pub heartbeat_timers : List ℕ
  pub drain_in_progress : Bool
  pub drain_requested : Bool

-- JOB_EVENTS of backend/src/websocket/messageTypes.js that the queue publishes
pub data JobEvent : Type 0 where
  job_queued job_failed job_cancelled heartbeat : JobEvent

pub record Published : Type 0 where
  pub job_id : ℕ
  pub event : JobEvent
  pub status : Option Status

-- The runtime with what it shares: the job documents of the database, the table of worker states
-- and the messages published so far.
pub record Runtime : Type 0 where
  pub memory : Memory
  pub jobs : List (ℕ × JobDoc)
  pub states : States
  pub published : List Published

abbrev pub with_memory : Memory → Runtime → Runtime
with_memory m r = record r { memory = m }

abbrev pub publish : ℕ → JobEvent → Option Status → Runtime → Runtime
publish job_id event status r = record r {
  published = r.published ++ (record { job_id = job_id; event = event; status = status } ∷ []);
}

-- What `transactionFirebase` resolves to: `committed` and the document as it now stands, or as it
-- was read.
pub record Outcome : Type 0 where
  pub committed : Bool
  pub snapshot : Option JobDoc

-- transactJob, at the point where it takes effect, for a transaction that resolves: one that throws
-- is modelled for the drain loop's claim only, in Machine
unfoldable pub transact_job : ℕ → (JobDoc → Option JobDoc) → Runtime → Runtime × Outcome
unfolding guarded
transact_job job_id update r =
    let existing = lookup job_id r.jobs in
    elim (guarded update existing) [
      | none ↦ (r, record { committed = false; snapshot = existing })
      | some next ↦ (
        record r { jobs = insert job_id next r.jobs },
        record { committed = true; snapshot = some next },
      )
    ]

pub data Ownership : Type 0 where
  queued running known unknown : Ownership

-- getJobOwnership
unfoldable pub get_job_ownership : ℕ → Memory → Ownership
get_job_ownership job_id m =
    if has job_id m.queued_job_ids
    then queued
    else if has job_id m.active_job_ids
    then running
    else if has job_id m.known_job_ids
    then known
    else unknown

-- The test at the start of enqueueJob.
abbrev pub is_here : ℕ → Memory → Bool
is_here job_id m =
    has job_id m.known_job_ids || has job_id m.active_job_ids || has job_id m.queued_job_ids

abbrev pub snapshot_is_queued : Option JobDoc → Bool
snapshot_is_queued none = false
snapshot_is_queued (some job) = is_queued job.status

-- `knownJobIds.add(jobId); queuedJobIds.push(jobId)`
abbrev pub admit : ℕ → Memory → Memory
admit job_id m = record m {
  known_job_ids = add job_id m.known_job_ids;
  queued_job_ids = push job_id m.queued_job_ids;
}

-- enqueueJob, after `await persistQueuedState`
unfoldable pub enqueue_finish : ℕ → ℕ → Bool → Outcome → Runtime → Runtime
unfolding create_state
enqueue_finish now job_id recovered outcome r =
    if not outcome.committed && not (snapshot_is_queued outcome.snapshot)
    then r
    else let placed = record r {
      memory = admit job_id r.memory;
      states = create_state now job_id Phase.queued r.states;
    } in
      if recovered then placed else publish job_id job_queued (some Status.queued) placed

-- enqueueJob, run with no other step between its parts
unfoldable pub enqueue_job : ℕ → ℕ → Bool → Runtime → Runtime
unfolding transact_job enqueue_finish persist_queued
enqueue_job now job_id recovered r =
    if is_here job_id r.memory
    then r
    else let (r', outcome) =
        transact_job job_id
          (persist_queued now (if recovered then some ReconciliationState.recovered else none)) r in
      enqueue_finish now job_id recovered outcome r'

-- drainQueue up to its first `await`: true if this call is to run the loop
unfoldable pub drain_begin : Memory → Memory × Bool
drain_begin m =
    if m.drain_in_progress
    then (record m { drain_requested = true }, false)
    else (record m { drain_in_progress = true; drain_requested = false }, true)

-- One test of the inner loop of drainQueue, with `queuedJobIds.shift()`
abbrev pub shift : List ℕ → Memory → Option (ℕ × Memory)
shift [] m = none
shift (job_id ∷ rest) m = some (job_id, record m { queued_job_ids = rest })

unfoldable pub drain_take : Config → Memory → Option (ℕ × Memory)
unfolding get_max_concurrent_jobs
drain_take c m =
    if ltb (length m.active_job_ids) (get_max_concurrent_jobs c)
    then shift m.queued_job_ids m
    else none

-- executeClaimedJob up to its first `await`
unfoldable pub execute_begin : ℕ → ℕ → Runtime → Runtime
unfolding set_phase
execute_begin now job_id r = record r {
  memory = record (r.memory) {
    active_job_ids = add job_id r.memory.active_job_ids;
    heartbeat_timers = add job_id r.memory.heartbeat_timers;
  };
  states =
      set_phase now job_id Phase.validation_started (some "Job claimed for execution.") r.states;
}

-- drainQueue after `await claimJob`
unfoldable pub drain_claimed : ℕ → ℕ → Bool → Runtime → Runtime
unfolding execute_begin
drain_claimed now job_id claimed r =
    if claimed
    then execute_begin now job_id r
    else with_memory (record (r.memory) { known_job_ids = remove job_id r.memory.known_job_ids }) r

-- The end of a round of drainQueue: true if the loop goes round again
unfoldable pub drain_end : Memory → Memory × Bool
drain_end m =
    if m.drain_requested
    then (record m { drain_requested = false }, true)
    else (record m { drain_in_progress = false }, false)

-- executeClaimedJob after the adapter: its `finally` block
unfoldable pub execute_finish : Identity → ℕ → ℕ → Bool → Runtime → Runtime
unfolding transact_job finalize
execute_finish me now job_id has_error r =
    let stopped =
      with_memory (record (r.memory) { heartbeat_timers = remove job_id r.memory.heartbeat_timers })
        r in
    let r' = (transact_job job_id (finalize me now has_error) stopped).0 in
    with_memory
      (record (r'.memory) {
        active_job_ids = remove job_id r'.memory.active_job_ids;
        known_job_ids = remove job_id r'.memory.known_job_ids;
      })
      r'
