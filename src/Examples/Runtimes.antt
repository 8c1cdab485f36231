-- ===== src/Examples/Runtimes.antt =====
-- Histories of one runtime: its queue, its drain loop and its worker states.
use ai_worker_platform.Worker.Phase
use ai_worker_platform.Examples.Data.{config, here, queued_job}
use ai_worker_platform.Common.{
  List, length, true, ℕ, ◌≡◌, ◌≤◌, some, ◌+◌, ◌∷◌, [], arith, false, refl, none,
}
use ai_worker_platform.Queue.Memory.{Memory, Outcome, Runtime, drain_take, transact_job}
use ai_worker_platform.Queue.Machine.{
  writes_elsewhere, Machine, cancels, drain_loop, empty_memory, started, Event, enqueues, drains,
  steps_drain, reconciles,
}
use ai_worker_platform.Queue.Loops.{System, run_system, started_system}
use ai_worker_platform.Queue.Draining.{Settled, drain_loop-Settled}
use ai_worker_platform.Queue.Control.{cancel_finish, index_of, is_cancelling_runtime, runtime_of}
use ai_worker_platform.Worker.State.{create_state, get_state, WorkerState, new_state}
use ai_worker_platform.Common.Sets.{count}
use ai_worker_platform.Queue.Races.{enqueue_around_reconcile, enqueue_race, cancel_race}
use ai_worker_platform.Queue.Updates.{cancel}
use ai_worker_platform.Worker.Progress.{
  Call, requests_cancellation, creates, run, IsKept, sets_progress, removes, run-IsKept,
  sets_cancelled,
}
use ai_worker_platform.Job.Document.{JobDoc}
use ai_worker_platform.Queue.Capacity.{active_bounded}
use ai_worker_platform.Queue.Places.{one_place}

abbrev stored : List (ℕ × JobDoc)
stored = (1, queued_job 1) ∷ (2, queued_job 2) ∷ (3, queued_job 3) ∷ []

-- Two jobs are enqueued; one is claimed and active when the other is cancelled.
abbrev busy : List (ℕ × ℕ × Event)
busy =
    (10, 0, enqueues 1 false)
    ∷ (11, 0, enqueues 2 false)
    ∷ (12, 0, drains)
    ∷ (13, 0, steps_drain false)
    ∷ (14, 0, steps_drain false)
    ∷ (15, 0, steps_drain false)
    ∷ (16, 0, cancels 2 true)
    ∷ (17, 0, reconciles 3)
    ∷ (17, 0, writes_elsewhere 3 (queued_job 3))
    ∷ (18, 0, steps_drain false)
    ∷ []

abbrev after_busy : Memory
after_busy = (run_system config here busy (started_system stored)).runtime.memory

busy_runs :
    (after_busy.active_job_ids ≡ 1 ∷ [])
    × (after_busy.queued_job_ids ≡ 3 ∷ [])
    × (after_busy.drain_in_progress ≡ false)
unfolding run_system
busy_runs = (refl, refl, refl)

one_place_example : count 3 after_busy.queued_job_ids + count 3 after_busy.active_job_ids + 0 ≤ 1
unfolding run_system
one_place_example = (one_place config here stored busy 3).0

active_bounded_example : length after_busy.active_job_ids ≤ 1
active_bounded_example = (active_bounded config here stored busy).1

-- The claim of job 1 throws: the loop is over, and the job is known but stands nowhere.
abbrev failing : List (ℕ × ℕ × Event)
failing =
    (10, 0, enqueues 1 false)
    ∷ (11, 0, drains)
    ∷ (12, 0, steps_drain false)
    ∷ (13, 0, steps_drain true)
    ∷ []

abbrev after_failing : System
after_failing = run_system config here failing (started_system stored)

claim_throws :
    (after_failing.loops ≡ [])
    × (after_failing.runtime.memory.queued_job_ids ≡ [])
    × (after_failing.runtime.memory.known_job_ids ≡ 1 ∷ [])
unfolding run_system
claim_throws = (refl, refl, refl)

-- Two jobs wait and the loop has begun.
abbrev draining : Machine
draining = record (started stored) {
  runtime = record ((started stored).runtime) {
    memory = record empty_memory {
      queued_job_ids = 1 ∷ 2 ∷ [];
      known_job_ids = 1 ∷ 2 ∷ [];
      drain_in_progress = true;
    };
  };
}

drain_loop-Settled_example :
    Settled config (λ n. false) (drain_loop config here 1000 (λ n. false) 10 draining)
drain_loop-Settled_example =
    drain_loop-Settled config here 1000 (λ n. false) 10 draining refl (omega arith)

enqueue_race_example :
    count 1 (enqueue_around_reconcile here 10 11 1 (started stored).runtime).memory.queued_job_ids
    ≡ 2
enqueue_race_example =
    enqueue_race here 10 11 1 (started stored).runtime (queued_job 1) refl refl refl refl refl

-- Three jobs wait when the cancellation of the second begins; the loop has shifted the first when
-- it goes on.
abbrev three : Memory
three = record empty_memory {
  queued_job_ids = 1 ∷ 2 ∷ 3 ∷ [];
  known_job_ids = 1 ∷ 2 ∷ 3 ∷ [];
  drain_in_progress = true;
}

abbrev shifted : Runtime
shifted = record ((started stored).runtime) {
  memory = record three { queued_job_ids = 2 ∷ 3 ∷ [] };
}

abbrev answer : Outcome
answer = (transact_job 2 (cancel 1000 true) shifted).1

takes_first : drain_take config three ≡ some (1, shifted.memory)
unfolding drain_take
takes_first = refl

answers_idle : is_cancelling_runtime 1000 (runtime_of answer) ≡ false
unfolding transact_job cancel
answers_idle = refl

cancel_race_example :
    (cancel_finish 1000 2 true
      (index_of 2 three.queued_job_ids)
      false
      answer
      shifted).0.memory.queued_job_ids
    ≡ 2 ∷ []
cancel_race_example =
    (cancel_race config three 1000 1 2 3 [] answer shifted refl (λ e. omega (arith, e)) refl refl
      takes_first answers_idle).0

-- A worker asks for a cancellation while the other jobs go on.
abbrev calls : List Call
calls =
    (20, 1, requests_cancellation)
    ∷ (21, 2, creates Phase.queued)
    ∷ (22, 1, sets_progress (some 3) none none)
    ∷ (23, 2, removes)
    ∷ (24, 1, sets_cancelled "Cancelled.")
    ∷ []

run-IsKept_example :
    (new : WorkerState) × (get_state 1 (run calls (create_state 10 1 Phase.queued [])) ≡ some new)
    × IsKept (new_state 10 1 Phase.queued) new
unfolding create_state get_state
run-IsKept_example =
    run-IsKept 1 calls (create_state 10 1 Phase.queued []) (new_state 10 1 Phase.queued)
      (refl, (refl, (refl, (refl, (refl, tt))))) refl
