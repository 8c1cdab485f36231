-- ===== src/Worker/Progress.antt =====
-- Runs of operations on the table of worker states.
use ai_worker_platform.Worker.State.{
  States, create_state, get_state, set_phase, set_progress, request_cancellation, remove_state,
  get_or_create_state, set_error, set_complete, set_cancelled, new_state, WorkerState,
}
use Prim.Native.Nat.{ℕ}
use ai_worker_platform.Worker.Phase.{Phase, queued}
use ai_worker_platform.Common.{
  Bool, List, String, [], true, ◌==◌, ◌∷◌, Option, false, ◌&&◌, some, ◌≡◌, arith, is_some, or_else,
  eqb_refl, All, Bool-cases, inl, ◌∙◌, eqb→eq, refl, inr,
}
use ai_worker_platform.Common.Maps.{lookup-insert, lookup-delete}

pub data Op : Type 0 where
  creates : Phase → Op
  sets_phase : Phase → Option String → Op
  sets_progress : Option ℕ → Option ℕ → Option String → Op
  requests_cancellation removes gets_or_creates : Op
  sets_error : Option String → Option String → Op
  sets_complete sets_cancelled : String → Op

abbrev pub apply : ℕ → ℕ → Op → States → States
apply now job_id (creates phase) = create_state now job_id phase
apply now job_id (sets_phase phase message) = set_phase now job_id phase message
apply now job_id (sets_progress p t m) = set_progress now job_id p t m
apply now job_id requests_cancellation = request_cancellation now job_id
apply now job_id removes = remove_state job_id
apply now job_id gets_or_creates = get_or_create_state now job_id
apply now job_id (sets_error code message) = set_error now job_id code message
apply now job_id (sets_complete message) = set_complete now job_id message
apply now job_id (sets_cancelled message) = set_cancelled now job_id message

-- A call: the instant, the job and the operation.
abbrev pub Call : Type 0
Call = ℕ × ℕ × Op

unfoldable pub run : List Call → States → States
run [] states = states
run ((now, job_id, op) ∷ rest) states = run rest (apply now job_id op states)

-- An operation that starts the entry of a job anew, or drops it.
abbrev pub resets : Op → Bool
resets (creates phase) = true
resets removes = true
resets _ = false

abbrev pub Keeps : ℕ → Call → Type 0
Keeps job_id (now, j, op) = (j == job_id) && resets op ≡ false

-- Each operation touches the entry of its own job alone.
pub apply-frame :
    (now job_id other : ℕ) (op : Op) (states : States)
    → (job_id == other) ≡ false
    → get_state other (apply now job_id op states) ≡ get_state other states
unfolding get_state create_state set_phase set_progress request_cancellation remove_state
    get_or_create_state set_error set_complete set_cancelled
apply-frame now job_id other (creates phase) states h = rw (lookup-insert, h)
apply-frame now job_id other (sets_phase phase message) states h = rw (lookup-insert, h)
apply-frame now job_id other (sets_progress p t m) states h = rw (lookup-insert, h)
apply-frame now job_id other requests_cancellation states h = rw (lookup-insert, h)
apply-frame now job_id other removes states h = rw (lookup-delete, h)
apply-frame now job_id other gets_or_creates states h =
    ground (arith, lookup-insert job_id other (new_state now job_id queued) states)
apply-frame now job_id other (sets_error code message) states h = rw (lookup-insert, h)
apply-frame now job_id other (sets_complete message) states h = rw (lookup-insert, h)
apply-frame now job_id other (sets_cancelled message) states h = rw (lookup-insert, h)

-- What a run of such calls leaves of the entry of a job: a cancellation request stands, the first
-- start stays as recorded, and the entry stays that of the job.
pub record IsKept (old new : WorkerState) : Type 0 where
  pub requested : old.cancellation_requested ≡ true → new.cancellation_requested ≡ true
  pub started : is_some old.started_at ≡ true → new.started_at ≡ old.started_at
  pub job : new.job_id ≡ old.job_id

apply-IsKept :
    (now job_id : ℕ) (op : Op) (states : States) (old : WorkerState)
    → resets op ≡ false
    → get_state job_id states ≡ some old
    → let new = or_else (get_state job_id (apply now job_id op states)) old in
      (get_state job_id (apply now job_id op states) ≡ some new) × IsKept old new
unfolding get_state create_state set_phase set_progress request_cancellation get_or_create_state
    set_error set_complete set_cancelled
apply-IsKept now job_id (creates phase) states old r h = cc
apply-IsKept now job_id removes states old r h = cc
apply-IsKept now job_id gets_or_creates states old r h = ground arith
apply-IsKept now job_id (sets_phase phase message) states old r h =
    rw (lookup-insert, eqb_refl) (ground arith)
apply-IsKept now job_id (sets_progress p t m) states old r h =
    rw (lookup-insert, eqb_refl) (ground arith)
apply-IsKept now job_id requests_cancellation states old r h =
    rw (lookup-insert, eqb_refl) (ground arith)
apply-IsKept now job_id (sets_error code message) states old r h =
    rw (lookup-insert, eqb_refl) (ground arith)
apply-IsKept now job_id (sets_complete message) states old r h =
    rw (lookup-insert, eqb_refl) (ground arith)
apply-IsKept now job_id (sets_cancelled message) states old r h =
    rw (lookup-insert, eqb_refl) (ground arith)

call-IsKept :
    (job_id now j : ℕ) (op : Op) (states : States) (old : WorkerState)
    → Keeps job_id (now, j, op)
    → get_state job_id states ≡ some old
    → (new : WorkerState) × (get_state job_id (apply now j op states) ≡ some new) × IsKept old new
call-IsKept job_id now j op states old k h = elim (Bool-cases (j == job_id)) [
  | inl same ↦
      let e = eqb→eq j job_id same in
      let r : resets op ≡ false = ground arith in
      let (found, kept) = apply-IsKept now job_id op states old r h in
      rw e (or_else (get_state job_id (apply now job_id op states)) old, found, kept)
  | inr differs ↦ (
    old,
    apply-frame now j job_id op states differs ∙ h,
    record { requested = λ r. r; started = λ s. refl; job = refl },
  )
]

-- A run of calls, on any jobs, that does not create or remove the entry of a job keeps the entry:
-- a cancellation request is never lost, the first start instant stays, and the entry is not
-- confused with that of another job.
pub run-IsKept :
    (job_id : ℕ) (calls : List Call) (states : States) (old : WorkerState)
    → All (Keeps job_id) calls
    → get_state job_id states ≡ some old
    → (new : WorkerState) × (get_state job_id (run calls states) ≡ some new) × IsKept old new
unfolding run
run-IsKept job_id [] states old k h =
    (old, h, record { requested = λ r. r; started = λ s. refl; job = refl })
run-IsKept job_id ((now, j, op) ∷ rest) states old k h =
    let (mid, found, first) = call-IsKept job_id now j op states old k.0 h in
    let (new, found', later) = run-IsKept job_id rest (apply now j op states) mid k.1 found in
    (
      new,
      found',
      record {
        requested = λ r. later.requested (first.requested r);
        started = λ s. ground (arith, first.started s, later.started);
        job = later.job ∙ first.job;
      },
    )
