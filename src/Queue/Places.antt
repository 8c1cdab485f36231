-- ===== src/Queue/Places.antt =====
-- Where a job can be within one runtime: waiting, being claimed, or active, and only once.
use ai_worker_platform.Common.{
  true, false, Bool, ◌≡◌, ◌+◌, ◌≤◌, ℕ, Bool, List, some, arith, false, true, ◌==◌, Option, none,
  refl, [], ◌∷◌, length, subst,
}
use ai_worker_platform.Queue.Machine.{
  writes_elsewhere, idle, asked, answered, Claim, Machine, drain_step, fire, Event, enqueues,
  reconciles, renews, finishes, cancels, drains, steps_drain, drain_throws,
}
use ai_worker_platform.Queue.Memory.{
  drain_claimed, drain_take, Memory, Runtime, admit, drain_end, drain_begin,
}
use ai_worker_platform.Queue.Updates.{claim}
use ai_worker_platform.Queue.Loops.{System, run_system, started_system, machine_of}
use ai_worker_platform.Queue.Single.{IsSingle, run_system_lem, machine_of-runtime}
use ai_worker_platform.Queue.Lease.{Config, Identity}
use ai_worker_platform.Common.Sets.{
  bit, has, count-add, remove, count-push, count-remove, has_eq, count,
}
use ai_worker_platform.Queue.Effects.{
  transact_job-memory, enqueue_job-memory, reconcile_job-memory, renew_lease-memory,
  execute_finish-memory, cancel_queued_job-memory, splice-index_of, has-index_of,
}
use ai_worker_platform.Job.Document.{JobDoc}

-- 1 if the drain loop holds the job, between its shift off the queue and its start.
abbrev pub claiming : ℕ → Claim → ℕ
claiming a idle = 0
claiming a (asked job_id) = bit (job_id == a)
claiming a (answered job_id claimed) = bit (job_id == a)

abbrev places : ℕ → Memory → Claim → ℕ
places a mem claim = count a mem.queued_job_ids + count a mem.active_job_ids + claiming a claim

-- The job stands in one place at most, and is known if it stands in one.
abbrev PlacedIn : ℕ → Memory → Claim → Type 0
PlacedIn a mem claim =
    (places a mem claim ≤ count a mem.known_job_ids) × (count a mem.known_job_ids ≤ 1)

abbrev pub Placed : ℕ → Machine → Type 0
Placed a m = PlacedIn a m.runtime.memory m.claim

admit-PlacedIn :
    (a job_id : ℕ) (mem : Memory) (claim : Claim)
    → has job_id mem.known_job_ids ≡ false
    → PlacedIn a mem claim
    → PlacedIn a (admit job_id mem) claim
admit-PlacedIn a job_id mem claim h p = ground (
  arith,
  has_eq job_id mem.known_job_ids,
  count-add a job_id mem.known_job_ids,
  count-push a job_id mem.queued_job_ids,
)

finish-PlacedIn :
    (a job_id : ℕ) (mem : Memory) (claim : Claim) (timers : List ℕ)
    → has job_id mem.active_job_ids ≡ true
    → PlacedIn a mem claim
    → PlacedIn a
        (record mem {
          heartbeat_timers = timers;
          active_job_ids = remove job_id mem.active_job_ids;
          known_job_ids = remove job_id mem.known_job_ids;
        })
        claim
finish-PlacedIn a job_id mem claim timers h p = ground (
  arith,
  count-remove a job_id mem.active_job_ids,
  count-remove a job_id mem.known_job_ids,
  has_eq job_id mem.active_job_ids,
  has_eq job_id mem.known_job_ids,
)

cancel-PlacedIn :
    (a job_id : ℕ) (mem : Memory) (claim : Claim)
    → has job_id mem.queued_job_ids ≡ true
    → PlacedIn a mem claim
    → PlacedIn a
        (record mem {
          queued_job_ids = remove job_id mem.queued_job_ids;
          known_job_ids = remove job_id mem.known_job_ids;
        })
        claim
cancel-PlacedIn a job_id mem claim h p = ground (
  arith,
  count-remove a job_id mem.queued_job_ids,
  count-remove a job_id mem.known_job_ids,
  has_eq job_id mem.queued_job_ids,
  has_eq job_id mem.known_job_ids,
)

drain_take-PlacedIn :
    (c : Config) (a : ℕ) (mem : Memory)
    → PlacedIn a mem idle
    → (job_id : ℕ) (rest : Memory) → drain_take c mem ≡ some (job_id, rest)
    → PlacedIn a rest (asked job_id)
unfolding drain_take
drain_take-PlacedIn c a mem p job_id rest e = ground arith

drain_claimed-PlacedIn :
    (a now job_id : ℕ) (claimed : Bool) (r : Runtime)
    → PlacedIn a r.memory (answered job_id claimed)
    → PlacedIn a (drain_claimed now job_id claimed r).memory idle
unfolding drain_claimed
drain_claimed-PlacedIn a now job_id claimed r p = ground (
  arith,
  count-add a job_id r.memory.active_job_ids,
  count-remove a job_id r.memory.known_job_ids,
  has_eq job_id r.memory.active_job_ids,
  has_eq job_id r.memory.known_job_ids,
)

drain_step_idle-Placed :
    (c : Config) (me : Identity) (now a : ℕ) (throws : Bool) (r : Runtime)
    (taken : Option (ℕ × Memory))
    → drain_take c r.memory ≡ taken
    → PlacedIn a r.memory idle
    → Placed a (drain_step c me now throws (record { runtime = r; claim = idle }))
unfolding drain_step drain_end
drain_step_idle-Placed c me now a throws r none e p = rw (e, drain_step) (ground arith)
drain_step_idle-Placed c me now a throws r (some (job_id, rest)) e p =
    rw (e, drain_step) (ground (arith, drain_take-PlacedIn c a r.memory p job_id rest e))

drain_step-Placed :
    (c : Config) (me : Identity) (now a : ℕ) (throws : Bool) (r : Runtime) (held : Claim)
    → PlacedIn a r.memory held
    → Placed a (drain_step c me now throws (record { runtime = r; claim = held }))
unfolding drain_step drain_throws
drain_step-Placed c me now a throws r idle p =
    drain_step_idle-Placed c me now a throws r (drain_take c r.memory) refl p
drain_step-Placed c me now a false r (asked job_id) p =
    rw (transact_job-memory job_id (claim c me now) r) p
drain_step-Placed c me now a true r (asked job_id) p = ground arith
drain_step-Placed c me now a throws r (answered job_id claimed) p =
    drain_claimed-PlacedIn a now job_id claimed r p

fire-Placed :
    (c : Config) (me : Identity) (now a : ℕ) (e : Event) (m : Machine)
    → Placed a m
    → Placed a (fire c me now e m)
unfolding fire drain_begin
fire-Placed c me now a drains m p = ground arith
fire-Placed c me now a (steps_drain throws) m p =
    drain_step-Placed c me now a throws m.runtime m.claim p
fire-Placed c me now a (enqueues job_id recovered) m p = ground (
  arith,
  enqueue_job-memory now job_id recovered m.runtime,
  admit-PlacedIn a job_id m.runtime.memory m.claim,
)
fire-Placed c me now a (reconciles job_id) m p = ground (
  arith,
  reconcile_job-memory me now job_id m.runtime,
  admit-PlacedIn a job_id m.runtime.memory m.claim,
)
fire-Placed c me now a (renews job_id) m p = rw (renew_lease-memory c me now job_id m.runtime) p
fire-Placed c me now a (finishes job_id has_error) m p = ground (
  arith,
  execute_finish-memory me now job_id has_error m.runtime,
  finish-PlacedIn a job_id m.runtime.memory m.claim
      (remove job_id m.runtime.memory.heartbeat_timers),
)
fire-Placed c me now a (cancels job_id allow_running) m p = ground (
  arith,
  cancel_queued_job-memory now job_id allow_running m.runtime,
  splice-index_of job_id m.runtime.memory.queued_job_ids,
  has-index_of job_id m.runtime.memory.queued_job_ids,
  cancel-PlacedIn a job_id m.runtime.memory m.claim,
)
fire-Placed c me now a (writes_elsewhere job_id job) m p = p

-- How often the drain loops of a runtime hold the job.
abbrev pub held_by : ℕ → List Claim → ℕ
held_by a [] = 0
held_by a (held ∷ rest) = claiming a held + held_by a rest

held_by-machine_of :
    (a : ℕ) (r : Runtime) (loops : List Claim)
    → length loops ≡ bit r.memory.drain_in_progress
    → held_by a loops ≡ claiming a (machine_of (record { runtime = r; loops = loops })).claim
held_by-machine_of a r [] h = refl
held_by-machine_of a r (held ∷ []) h = omega arith
held_by-machine_of a r (held ∷ other ∷ rest) h = absurd (ground arith)

stands_once :
    (a : ℕ) (s : System)
    → IsSingle s
    → Placed a (machine_of s)
    → let mem = s.runtime.memory in
      (count a mem.queued_job_ids + count a mem.active_job_ids + held_by a s.loops ≤ 1)
      × (count a mem.queued_job_ids + count a mem.active_job_ids + held_by a s.loops
          ≤ count a mem.known_job_ids)
stands_once a s h p =
    let same = held_by-machine_of a s.runtime s.loops h in
    let q =
      subst (λ (r : Runtime). PlacedIn a r.memory (machine_of s).claim) (machine_of-runtime s) p in
    (omega (arith, same, q.0, q.1), omega (arith, same, q.0))

-- Take any history of a runtime from its start, in which any other process may write any job
-- document between two events, and the transactions of an enqueueing, a reconciliation, a renewal,
-- the end of an execution and a cancellation resolve, with no other function of the runtime between
-- their parts; the drain loops alone are interrupted at their awaits, and their claims may throw. In
-- it a job stands in one place at most: it waits once, or a drain loop is claiming it, or it is
-- active. A job that stands somewhere is known, so it is not enqueued again.
pub one_place :
    (c : Config) (me : Identity) (jobs : List (ℕ × JobDoc)) (events : List (ℕ × ℕ × Event)) (a : ℕ)
    → let s = run_system c me events (started_system jobs) in
      let mem = s.runtime.memory in
      (count a mem.queued_job_ids + count a mem.active_job_ids + held_by a s.loops ≤ 1)
      × (count a mem.queued_job_ids + count a mem.active_job_ids + held_by a s.loops
          ≤ count a mem.known_job_ids)
one_place c me jobs events a =
    let (single, placed) =
      run_system_lem c me (Placed a) (λ now e m p. fire-Placed c me now a e m p) events
        (started_system jobs) refl (omega arith) in
    stands_once a (run_system c me events (started_system jobs)) single placed
