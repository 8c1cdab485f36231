-- ===== src/Queue/Loops.antt =====
-- One runtime of backend/src/queue/jobQueue.js with every drain loop that runs in it: a call of
-- drainQueue starts a loop unless it finds another one in progress.
use ai_worker_platform.Common.{
  none, some, if◌then◌else◌, [], ◌∷◌, ◌++◌, List, ℕ, Bool, suc, zero, Option,
}
use ai_worker_platform.Queue.Memory.{
  Runtime, drain_begin, drain_take, drain_end, drain_claimed, transact_job, with_memory,
}
use ai_worker_platform.Queue.Machine.{
  Claim, Machine, idle, asked, answered, drain_throws, Event, drains, steps_drain, fire,
  empty_memory,
}
use ai_worker_platform.Queue.Lease.{Config, Identity}
use ai_worker_platform.Queue.Updates.{claim}
use ai_worker_platform.Job.Document.{JobDoc}

pub record System : Type 0 where
  pub runtime : Runtime
  pub loops : List Claim

-- The end of a round: the loop goes round again, or is over.
abbrev pub round_over : Runtime → Runtime × Option Claim
round_over r =
    let (mem, again) = drain_end r.memory in (with_memory mem r, if again then some idle else none)

-- One step of one loop of drainQueue; `none` is a loop that is over.
unfoldable pub loop_step : Config → Identity → ℕ → Bool → Claim → Runtime → Runtime × Option Claim
unfolding drain_take drain_end drain_claimed drain_throws transact_job claim
loop_step c me now throws (asked job_id) r =
    let (r', outcome) = transact_job job_id (claim c me now) r in
    if throws
    then (with_memory (drain_throws r.memory) r, none)
    else (r', some (answered job_id outcome.committed))
loop_step c me now throws (answered job_id claimed) r =
    (drain_claimed now job_id claimed r, some idle)
loop_step c me now throws idle r = elim (drain_take c r.memory) [
  | none ↦ round_over r
  | some (job_id, rest) ↦ (with_memory rest r, some (asked job_id))
]

abbrev pub with_loop : Option Claim → List Claim → List Claim
with_loop none loops = loops
with_loop (some held) loops = held ∷ loops

-- One step of the loop of a number.
unfoldable pub step_loops : Config → Identity → ℕ → Bool → ℕ → List Claim → Runtime → System
unfolding loop_step
step_loops c me now throws n [] r = record { runtime = r; loops = [] }
step_loops c me now throws zero (held ∷ rest) r =
    let (r', left) = loop_step c me now throws held r in
    record { runtime = r'; loops = with_loop left rest }
step_loops c me now throws (suc n) (held ∷ rest) r =
    let s = step_loops c me now throws n rest r in record s { loops = held ∷ s.loops }

-- drainQueue up to its first `await`
unfoldable pub start_drain : System → System
unfolding drain_begin
start_drain s =
    let (mem, runs) = drain_begin s.runtime.memory in
    record {
      runtime = with_memory mem s.runtime;
      loops = if runs then s.loops ++ (idle ∷ []) else s.loops;
    }

-- The runtime as one that has one loop at most.
abbrev pub machine_of : System → Machine
machine_of s = elim s.loops [
  | [] ↦ record { runtime = s.runtime; claim = idle }
  | held ∷ rest ↦ record { runtime = s.runtime; claim = held }
]

-- One event; a step of a drain loop is one of the loop of the number. What is no drain acts on the
-- runtime alone.
unfoldable pub fire_system : Config → Identity → ℕ → ℕ → Event → System → System
unfolding start_drain step_loops fire
fire_system c me now n drains s = start_drain s
fire_system c me now n (steps_drain throws) s = step_loops c me now throws n s.loops s.runtime
fire_system c me now n e s = record s { runtime = (fire c me now e (machine_of s)).runtime }

-- A history: each event with its instant and the number of a loop.
unfoldable pub run_system : Config → Identity → List (ℕ × ℕ × Event) → System → System
unfolding fire_system
run_system c me [] s = s
run_system c me ((now, n, e) ∷ rest) s = run_system c me rest (fire_system c me now n e s)

-- A runtime that has just started, on any database.
abbrev pub started_system : List (ℕ × JobDoc) → System
started_system jobs = record {
  runtime = record { memory = empty_memory; jobs = jobs; states = []; published = [] };
  loops = [];
}
