-- ===== src/Examples/Leases.antt =====
-- Claims, leases and recovery of one job.
use ai_worker_platform.Common.{◌≡◌, refl, [], ◌∷◌, none, some, ℕ, List, or_else, true, arith}
use ai_worker_platform.Examples.Data.{
  config, here, there, queued_job, held_runtime, claimed_job, generating_job, completed_job,
}
use ai_worker_platform.Job.Status.{Status}
use ai_worker_platform.Job.Document.{QueueState, JobDoc}
use ai_worker_platform.Queue.Updates.{claim, finalize, reconcile, release}
use ai_worker_platform.Queue.Lease.{is_lease_valid, is_owned_by_this_runtime}
use ai_worker_platform.Queue.Exclusion.{IsHeldBy, claim_excludes, run-IsHeldBy}
use ai_worker_platform.Queue.History.{
  SameButRuntime, Action, run, cancels, claims, reconciles, persists, run-terminal, releases,
}
use ai_worker_platform.Queue.Recovery.{reconcile_settles, finalize_total}

claim_runs : claim config here 1000 (queued_job 1) ≡ some (claimed_job 1)
unfolding claim is_lease_valid is_owned_by_this_runtime
claim_runs = refl

-- Another runtime looks in during the lease: it claims, reconciles, requeues and shuts down.
abbrev visits : List (ℕ × Action)
visits =
    (2000, claims there)
    ∷ (3000, reconciles there)
    ∷ (4000, persists none)
    ∷ (5000, releases there)
    ∷ []

claim_excludes_example : run config visits (claimed_job 1) ≡ claimed_job 1
claim_excludes_example =
    claim_excludes config here 1000 (queued_job 1) (claimed_job 1) visits claim_runs (omega arith)
      (omega arith)

abbrev visits_and_cancels : List (ℕ × Action)
visits_and_cancels = (2000, cancels true) ∷ visits

generating-IsHeldBy : IsHeldBy here 61000 (generating_job 1)
generating-IsHeldBy = record { machine = refl; instance_id = refl; held = refl; lease = refl }

run-IsHeldBy_example : (run config visits_and_cancels (generating_job 1)).status ≡ Status.generating
run-IsHeldBy_example =
    (run-IsHeldBy config here 61000 visits_and_cancels (generating_job 1) generating-IsHeldBy refl
      (omega arith)).1

run-terminal_example :
    SameButRuntime
      (completed_job 1)
      (run config ((90000, reconciles there) ∷ (90001, cancels true) ∷ []) (completed_job 1))
run-terminal_example =
    run-terminal config ((90000, reconciles there) ∷ (90001, cancels true) ∷ []) (completed_job 1)
      refl

finalize_total_example : (job' : JobDoc) × (finalize here 5000 true (generating_job 1) ≡ some job')
unfolding is_owned_by_this_runtime
finalize_total_example = let t = finalize_total here 5000 true (generating_job 1) refl in (t.0, t.1)

reconcile_settles_example : (job' : JobDoc) × (reconcile there 90000 (generating_job 1) ≡ some job')
unfolding is_lease_valid
reconcile_settles_example =
    let t = reconcile_settles config there 90000 (generating_job 1) refl refl in (t.0, t.1)

abbrev recovered_job : JobDoc
recovered_job = or_else (reconcile there 90000 (claimed_job 1)) (claimed_job 1)

recovers : reconcile there 90000 (claimed_job 1) ≡ some recovered_job
unfolding reconcile is_lease_valid
recovers = refl

abbrev released_job : JobDoc
released_job = or_else (release here 5000 (generating_job 1)) (generating_job 1)

releases_job : release here 5000 (generating_job 1) ≡ some released_job
unfolding release is_owned_by_this_runtime
releases_job = refl

abbrev cancelling_job : JobDoc
cancelling_job = record (queued_job 1) {
  queue_runtime = some (held_runtime here 1000 QueueState.cancelling);
}
