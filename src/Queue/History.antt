-- ===== src/Queue/History.antt =====
-- One job document under the transactions of any number of runtimes: every `transactJob` call of
-- backend/src/queue/jobQueue.js is an action, and a history is a list of timed actions.
use ai_worker_platform.Common.{
  ℕ, ◌≡◌, refl, Bool, true, Option, some, List, [], ◌∷◌, arith, or_else,
}
use ai_worker_platform.Job.Status.{is_terminal}
use ai_worker_platform.Job.Document.{ReconciliationState, JobDoc}
use ai_worker_platform.Queue.Lease.{Config, Identity}
use ai_worker_platform.Queue.Updates.{
  guarded, claim, renew, finalize, persist_queued, cancel, reconcile, release,
}

pub data Action : Type 0 where
  claims renews reconciles releases : Identity → Action
  finalizes : Identity → Bool → Action
  persists : Option ReconciliationState → Action
  cancels : Bool → Action

abbrev pub updater : Config → ℕ → Action → JobDoc → Option JobDoc
updater c now (claims me) = claim c me now
updater c now (renews me) = renew c me now
updater c now (reconciles me) = reconcile me now
updater c now (releases me) = release me now
updater c now (finalizes me has_error) = finalize me now has_error
updater c now (persists state) = persist_queued now state
updater c now (cancels allow_running) = cancel now allow_running

-- A transaction that does not commit leaves the document.
unfoldable pub step : Config → ℕ × Action → JobDoc → JobDoc
unfolding guarded
step c (now, a) job = or_else (guarded (updater c now a) (some job)) job

unfoldable pub run : Config → List (ℕ × Action) → JobDoc → JobDoc
run c [] job = job
run c (a ∷ rest) job = run c rest (step c a job)

-- What a history leaves of a job besides its runtime fields.
abbrev pub SameButRuntime : JobDoc → JobDoc → Type 0
SameButRuntime job job' = job' ≡ record job { queue_runtime = job'.queue_runtime }

step_terminal :
    (c : Config) (now : ℕ) (a : Action) (job : JobDoc)
    → is_terminal job.status ≡ true
    → SameButRuntime job (step c (now, a) job)
unfolding step claim renew finalize persist_queued cancel reconcile release
step_terminal c now (claims me) job h = ground arith
step_terminal c now (renews me) job h = ground arith
step_terminal c now (finalizes me e) job h = ground arith
step_terminal c now (persists s) job h = ground arith
step_terminal c now (cancels r) job h = ground arith
step_terminal c now (reconciles me) job h = ground arith
step_terminal c now (releases me) job h = ground arith

-- Whatever the runtimes do to a job whose status is terminal, they change nothing but its runtime
-- fields: the status, the result, the error, the events and the instants stay as recorded.
pub run-terminal :
    (c : Config) (history : List (ℕ × Action)) (job : JobDoc)
    → is_terminal job.status ≡ true
    → SameButRuntime job (run c history job)
unfolding run
run-terminal c [] job h = refl
run-terminal c ((now, a) ∷ rest) job h =
    let e = step_terminal c now a job h in
    let ih = run-terminal c rest (step c (now, a) job) (rw e h) in ground arith
