-- ===== src/Queue/Capacity.antt =====
-- The drain loops: one at most, and no more jobs are active than are allowed.
use ai_worker_platform.Common.{
  true, false, Bool, ◌≡◌, refl, ◌⊎◌, [], none, ◌+◌, ◌≤◌, ℕ, Bool, List, length, some, Option, arith,
  max, subst,
}
use ai_worker_platform.Queue.Updates.{claim}
use ai_worker_platform.Queue.Machine.{
  writes_elsewhere, idle, asked, answered, fire, drains, steps_drain, enqueues, reconciles, renews,
  finishes, cancels, Claim, drain_step, Event, Machine, drain_throws,
}
use ai_worker_platform.Queue.Loops.{System, run_system, started_system, machine_of}
use ai_worker_platform.Queue.Single.{IsSingle, run_system_lem, machine_of-runtime}
use ai_worker_platform.Queue.Lease.{Config, get_max_concurrent_jobs, Identity}
use ai_worker_platform.Queue.Memory.{
  drain_begin, drain_claimed, drain_take, Memory, drain_end, Runtime,
}
use ai_worker_platform.Queue.Effects.{
  transact_job-memory, enqueue_job-memory, reconcile_job-memory, renew_lease-memory,
  execute_finish-memory, cancel_queued_job-memory,
}
use ai_worker_platform.Job.Document.{JobDoc}
use ai_worker_platform.Common.Sets.{length-add, length-remove}

abbrev pub claims_one : Claim → ℕ
claims_one idle = 0
claims_one _ = 1

-- The jobs that are active, and the one that the drain loop is about to start, fit the limit.
abbrev pub FitsIn : Config → Memory → Claim → Type 0
FitsIn c mem held = length mem.active_job_ids + claims_one held ≤ get_max_concurrent_jobs c

drain_take-FitsIn :
    (c : Config) (mem rest : Memory) (job_id : ℕ)
    → drain_take c mem ≡ some (job_id, rest)
    → FitsIn c rest (asked job_id)
unfolding drain_take
drain_take-FitsIn c mem rest job_id e = ground arith

pub drain_take-none :
    (c : Config) (mem : Memory)
    → drain_take c mem ≡ none
    → (mem.queued_job_ids ≡ []) ⊎ (get_max_concurrent_jobs c ≤ length mem.active_job_ids)
unfolding drain_take
drain_take-none c mem e = ground arith

drain_claimed-FitsIn :
    (c : Config) (now job_id : ℕ) (claimed : Bool) (r : Runtime)
    → FitsIn c r.memory (answered job_id claimed)
    → FitsIn c (drain_claimed now job_id claimed r).memory idle
unfolding drain_claimed
drain_claimed-FitsIn c now job_id claimed r p =
    ground (arith, length-add job_id r.memory.active_job_ids)

drain_step_idle-FitsIn :
    (c : Config) (me : Identity) (now : ℕ) (throws : Bool) (r : Runtime)
    (taken : Option (ℕ × Memory))
    → drain_take c r.memory ≡ taken
    → FitsIn c r.memory idle
    → let m = drain_step c me now throws (record { runtime = r; claim = idle }) in
      FitsIn c m.runtime.memory m.claim
unfolding drain_step drain_end
drain_step_idle-FitsIn c me now throws r none e p = rw (e, drain_step) (ground arith)
drain_step_idle-FitsIn c me now throws r (some (job_id, rest)) e p =
    rw (e, drain_step) (ground (arith, drain_take-FitsIn c r.memory rest job_id e))

drain_step-FitsIn :
    (c : Config) (me : Identity) (now : ℕ) (throws : Bool) (r : Runtime) (held : Claim)
    → FitsIn c r.memory held
    → let m = drain_step c me now throws (record { runtime = r; claim = held }) in
      FitsIn c m.runtime.memory m.claim
unfolding drain_step drain_throws
drain_step-FitsIn c me now throws r idle p =
    drain_step_idle-FitsIn c me now throws r (drain_take c r.memory) refl p
drain_step-FitsIn c me now false r (asked job_id) p =
    rw (transact_job-memory job_id (claim c me now) r) p
drain_step-FitsIn c me now true r (asked job_id) p = ground arith
drain_step-FitsIn c me now throws r (answered job_id claimed) p =
    drain_claimed-FitsIn c now job_id claimed r p

fire-FitsIn :
    (c : Config) (me : Identity) (now : ℕ) (e : Event) (m : Machine)
    → FitsIn c m.runtime.memory m.claim
    → let m' = fire c me now e m in FitsIn c m'.runtime.memory m'.claim
unfolding fire drain_begin
fire-FitsIn c me now drains m p = ground arith
fire-FitsIn c me now (steps_drain throws) m p =
    drain_step-FitsIn c me now throws m.runtime m.claim p
fire-FitsIn c me now (enqueues job_id recovered) m p =
    ground (arith, enqueue_job-memory now job_id recovered m.runtime)
fire-FitsIn c me now (reconciles job_id) m p =
    ground (arith, reconcile_job-memory me now job_id m.runtime)
fire-FitsIn c me now (renews job_id) m p = rw (renew_lease-memory c me now job_id m.runtime) p
fire-FitsIn c me now (finishes job_id has_error) m p = ground (
  arith,
  execute_finish-memory me now job_id has_error m.runtime,
  length-remove job_id m.runtime.memory.active_job_ids,
)
fire-FitsIn c me now (cancels job_id allow_running) m p =
    ground (arith, cancel_queued_job-memory now job_id allow_running m.runtime)
fire-FitsIn c me now (writes_elsewhere job_id job) m p = p

single_few : (s : System) → IsSingle s → length s.loops ≤ 1
single_few s h = ground arith

active_few :
    (c : Config) (s : System)
    → FitsIn c (machine_of s).runtime.memory (machine_of s).claim
    → length s.runtime.memory.active_job_ids ≤ get_max_concurrent_jobs c
active_few c s h =
    let q =
      subst (λ (r : Runtime). FitsIn c r.memory (machine_of s).claim) (machine_of-runtime s) h in
    omega (arith, q)

-- In every history of a runtime from its start, in which its drain loops take their steps in any
-- order, any other function of the queue runs between two of them, whole and with a transaction that
-- resolves, and other processes write to the job documents, at most one drain loop runs, and the
-- jobs that are active are never more than the configured number, and never more than one if that
-- number is 0.
pub active_bounded :
    (c : Config) (me : Identity) (jobs : List (ℕ × JobDoc)) (events : List (ℕ × ℕ × Event))
    → let s = run_system c me events (started_system jobs) in
      (length s.loops ≤ 1) × (length s.runtime.memory.active_job_ids ≤ max 1 c.max_concurrent_jobs)
unfolding get_max_concurrent_jobs
active_bounded c me jobs events =
    let (single, fits) =
      run_system_lem c me (λ m. FitsIn c m.runtime.memory m.claim)
        (λ now e m p. fire-FitsIn c me now e m p) events (started_system jobs) refl (omega arith) in
    let s = run_system c me events (started_system jobs) in
    (single_few s single, active_few c s fits)
