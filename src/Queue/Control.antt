-- ===== src/Queue/Control.antt =====
-- Cancellation, lease heartbeats, reconciliation and shutdown over the state of one runtime:
-- backend/src/queue/jobQueue.js from renewLease on. Segments as in Queue/Memory.antt.
use ai_worker_platform.Common.{
  if◌then◌else◌, Bool, Option, ℕ, List, false, none, not, ◌&&◌, ◌||◌, some, zero, suc, true, ◌==◌,
  is_some, or_else, [], ◌∷◌,
}
use ai_worker_platform.Worker.Phase
use ai_worker_platform.Queue.Updates.{renew, cancel, reconcile, release}
use ai_worker_platform.Queue.Memory.{
  Outcome, transact_job, Runtime, publish, with_memory, heartbeat, admit, job_failed, job_cancelled,
}
use ai_worker_platform.Worker.State.{
  create_state, is_cancellation_requested, set_cancelled, request_cancellation,
}
use ai_worker_platform.Queue.Lease.{Identity, Config, is_lease_valid}
use ai_worker_platform.Job.Document.{QueueState, JobDoc, QueueRuntime}
use ai_worker_platform.Common.Sets.{has, remove}
use ai_worker_platform.Job.Status.{is_terminal, is_failed, is_queued}

-- `xs.indexOf(a)`, with `none` for -1
abbrev pub index_of : ℕ → List ℕ → Option ℕ
index_of a [] = none
index_of a (x ∷ xs) =
    let rest = index_of a xs in
    if x == a then some 0 else elim rest [ none ↦ none | some i ↦ some (suc i) ]

-- `xs.splice(i, 1)`
abbrev pub splice : ℕ → List ℕ → List ℕ
splice i [] = []
splice zero (x ∷ xs) = xs
splice (suc i) (x ∷ xs) = x ∷ splice i xs

abbrev pub runtime_of : Outcome → Option QueueRuntime
runtime_of outcome = elim outcome.snapshot [ none ↦ none | some job ↦ job.queue_runtime ]

abbrev pub asks_cancellation : Option QueueRuntime → Bool
asks_cancellation none = false
asks_cancellation (some runtime) = runtime.cancellation_requested

-- renewLease after its transaction: a request that another runtime wrote reaches the worker
unfoldable pub renew_finish : ℕ → ℕ → Outcome → Runtime → Runtime
unfolding is_cancellation_requested request_cancellation
renew_finish now job_id outcome r =
    let told =
      if asks_cancellation (runtime_of outcome) && not (is_cancellation_requested job_id r.states)
      then record r { states = request_cancellation now job_id r.states }
      else r in
    if outcome.committed then publish job_id heartbeat none told else told

-- renewLease
unfoldable pub renew_lease : Config → Identity → ℕ → ℕ → Runtime → Runtime
unfolding transact_job renew renew_finish
renew_lease c me now job_id r =
    let (r', outcome) = transact_job job_id (renew c me now) r in renew_finish now job_id outcome r'

-- What cancelQueuedJob returns.
pub record CancelResult : Type 0 where
  pub cancelled : Bool
  pub running : Bool
  pub already_requested : Bool
  pub unsupported : Bool
  pub runtime : Option QueueRuntime

abbrev pub is_cancelling_runtime : ℕ → Option QueueRuntime → Bool
is_cancelling_runtime now none = false
is_cancelling_runtime now (some runtime) = elim runtime.queue_state [
  | some QueueState.cancelling ↦ is_lease_valid runtime now
  | _ ↦ false
]

abbrev pub snapshot_is_active : Option JobDoc → Bool
snapshot_is_active none = false
snapshot_is_active (some job) = not (is_terminal job.status)

-- The branch of cancelQueuedJob for a job that waits in the local queue. `queued_index` was
-- computed before the transaction.
unfoldable pub cancel_local : ℕ → ℕ → ℕ → Runtime → Runtime
unfolding set_cancelled
cancel_local now job_id queued_index r = record r {
  memory = record (r.memory) {
    queued_job_ids = splice queued_index r.memory.queued_job_ids;
    known_job_ids = remove job_id r.memory.known_job_ids;
  };
  states = set_cancelled now job_id "Queued job cancelled before execution." r.states;
}

-- The branch of cancelQueuedJob for a job that runs, here or elsewhere.
unfoldable pub cancel_running : ℕ → ℕ → Bool → Runtime → Runtime
unfolding is_cancellation_requested request_cancellation
cancel_running now job_id locally_active r =
    let told =
      if locally_active && not (is_cancellation_requested job_id r.states)
      then record r { states = request_cancellation now job_id r.states }
      else r in
    publish job_id heartbeat none told

-- cancelQueuedJob after its transaction, with the two facts that it read before
unfoldable pub cancel_finish :
    ℕ → ℕ → Bool → Option ℕ → Bool → Outcome → Runtime → Runtime × CancelResult
unfolding cancel_local cancel_running is_cancellation_requested
cancel_finish now job_id allow_running queued_index locally_active outcome r =
    let runtime = runtime_of outcome in
    let running = is_cancelling_runtime now runtime in
    let requested =
      is_cancellation_requested job_id r.states
      || asks_cancellation runtime && not locally_active in
    let result = λ (done : Bool) (busy : Bool) (already : Bool) (refused : Bool).
      (let made : CancelResult = record {
        cancelled = done;
        running = busy;
        already_requested = already;
        unsupported = refused;
        runtime = runtime;
      } in
        made) in
    if not allow_running && not outcome.committed && snapshot_is_active outcome.snapshot
    then (r, result false true false true)
    else if is_some queued_index && not running
    then (cancel_local now job_id (or_else queued_index 0) r, result true false false false)
    else if running || locally_active
    then (cancel_running now job_id locally_active r, result false true requested false)
    else (r, result false false false false)

-- cancelQueuedJob, run with no other step between its parts
unfoldable pub cancel_queued_job : ℕ → ℕ → Bool → Runtime → Runtime × CancelResult
unfolding transact_job cancel cancel_finish
cancel_queued_job now job_id allow_running r =
    let queued_index = index_of job_id r.memory.queued_job_ids in
    let locally_active = has job_id r.memory.active_job_ids in
    let (r', outcome) = transact_job job_id (cancel now allow_running) r in
    cancel_finish now job_id allow_running queued_index locally_active outcome r'

-- reconcileInterruptedJob after its transaction
unfoldable pub reconcile_finish : ℕ → ℕ → Outcome → Runtime → Runtime
unfolding create_state
reconcile_finish now job_id outcome r = if not outcome.committed then r else elim outcome.snapshot [
  | none ↦ r
  | some job ↦
      if is_queued job.status
      then (if has job_id r.memory.known_job_ids then r else record r {
        memory = admit job_id r.memory;
        states = create_state now job_id Phase.queued r.states;
      })
      else (let failed = is_failed job.status in
          publish job_id (if failed then job_failed else job_cancelled) (some job.status)
            (record r {
              states =
                  create_state now job_id (if failed then Phase.failed else Phase.cancelled)
                    r.states;
            }))
]

-- reconcileInterruptedJob
unfoldable pub reconcile_job : Identity → ℕ → ℕ → Runtime → Runtime
unfolding transact_job reconcile reconcile_finish
reconcile_job me now job_id r =
    let (r', outcome) = transact_job job_id (reconcile me now) r in
    reconcile_finish now job_id outcome r'

-- The loop of reconcileQueue over the jobs that its query found.
unfoldable pub reconcile_jobs : Identity → ℕ → List ℕ → Runtime → Runtime
reconcile_jobs me now [] r = r
reconcile_jobs me now (job_id ∷ rest) r = reconcile_jobs me now rest (reconcile_job me now job_id r)

-- The loop of shutdownQueue over the active jobs.
unfoldable pub shutdown_jobs : Identity → ℕ → List ℕ → Runtime → Runtime
unfolding transact_job release
shutdown_jobs me now [] r = r
shutdown_jobs me now (job_id ∷ rest) r =
    let stopped =
      with_memory (record (r.memory) { heartbeat_timers = remove job_id r.memory.heartbeat_timers })
        r in
    shutdown_jobs me now rest (transact_job job_id (release me now) stopped).0
