-- ===== src/Queue/Exclusion.antt =====
-- Leases keep the runtimes apart.
use ai_worker_platform.Common.{
  ℕ, ◌<◌, ◌+◌, ◌≡◌, ◌≢◌, true, false, some, arith, List, is_some, All, or_else, [], ◌∷◌, refl, ◌∙◌,
}
use ai_worker_platform.Job.Status.{is_queued}
use ai_worker_platform.Job.Document.{JobDoc, QueueState}
use ai_worker_platform.Queue.Lease.{
  Config, Identity, is_lease_valid, is_owned_by_this_runtime, current_runtime, is_held,
  is_claimed_or_running,
}
use ai_worker_platform.Queue.Updates.{
  claim, renew, finalize, persist_queued, cancel, reconcile, release,
}
use ai_worker_platform.Queue.History.{
  Action, claims, renews, finalizes, persists, cancels, reconciles, releases, step, run,
}

-- `me` holds the job, in one of the three held states, under a lease that runs out at `deadline`.
pub record IsHeldBy (me : Identity) (deadline : ℕ) (job : JobDoc) : Type 0 where
  pub machine : (current_runtime job).machine_id ≡ some me.machine_id
  pub instance_id : (current_runtime job).runtime_instance_id ≡ some me.runtime_instance_id
  pub held : is_held (current_runtime job).queue_state ≡ true
  pub lease : (current_runtime job).lease_expires_at ≡ some deadline

-- A committed claim makes the runtime the holder of a lease of full length and clears an old
-- request for cancellation; it changes nothing but the runtime fields.
pub claim-IsHeldBy :
    (c : Config) (me : Identity) (now : ℕ) (job job' : JobDoc)
    → claim c me now job ≡ some job'
    → IsHeldBy me (now + c.lease_duration_ms) job'
      × ((current_runtime job').cancellation_requested ≡ false)
      × (is_queued job.status ≡ true)
      × (job' ≡ record job { queue_runtime = job'.queue_runtime })
unfolding claim is_lease_valid is_owned_by_this_runtime
claim-IsHeldBy c me now job job' h = ground arith

claim-is_running :
    (c : Config) (me : Identity) (now : ℕ) (job job' : JobDoc)
    → claim c me now job ≡ some job'
    → is_claimed_or_running (current_runtime job').queue_state ≡ true
unfolding claim is_lease_valid is_owned_by_this_runtime
claim-is_running c me now job job' h = ground arith

-- Two runtimes are different when their instance identifiers are.
abbrev pub Differs : Identity → Identity → Type 0
Differs me other = me.runtime_instance_id ≢ other.runtime_instance_id

-- The actions by which `me` itself moves the job on are left out of a history of the others.
abbrev pub OfOthers : Identity → Action → Type 0
OfOthers me (claims other) = Differs me other
OfOthers me (renews other) = Differs me other
OfOthers me (finalizes other e) = Differs me other
OfOthers me (releases other) = Differs me other
OfOthers me _ = Unit

step-IsHeldBy :
    (c : Config) (me : Identity) (deadline now : ℕ) (a : Action) (job : JobDoc)
    → IsHeldBy me deadline job
    → is_queued job.status ≡ false
    → now < deadline
    → OfOthers me a
    → IsHeldBy me deadline (step c (now, a) job) × ((step c (now, a) job).status ≡ job.status)
unfolding step claim renew finalize persist_queued cancel reconcile release is_lease_valid
    is_owned_by_this_runtime
step-IsHeldBy c me deadline now (claims other) job h q lt o = ground arith
step-IsHeldBy c me deadline now (renews other) job h q lt o = ground arith
step-IsHeldBy c me deadline now (finalizes other e) job h q lt o = ground arith
step-IsHeldBy c me deadline now (persists s) job h q lt o = ground arith
step-IsHeldBy c me deadline now (cancels r) job h q lt o = ground arith
step-IsHeldBy c me deadline now (reconciles other) job h q lt o = ground arith
step-IsHeldBy c me deadline now (releases other) job h q lt o = ground arith

-- Every entry of the history is an action of another runtime, before the deadline.
abbrev pub OthersBefore : Identity → ℕ → List (ℕ × Action) → Type 0
OthersBefore me deadline = All (λ entry. (entry.0 < deadline) × OfOthers me entry.1)

-- Once the worker has taken a job out of the status `queued`, none of the transactions that the
-- queues of other runtimes (jobQueue.js) make before the holder's lease runs out takes the job from
-- it or changes the job's status: neither claims, renewals, reconciliations, requeueing, marks of a
-- cancellation nor shutdowns. The job service's cancelJob, which saves the status `cancelling`, is
-- no transaction of the queue and is not among them.
pub run-IsHeldBy :
    (c : Config) (me : Identity) (deadline : ℕ) (history : List (ℕ × Action)) (job : JobDoc)
    → IsHeldBy me deadline job
    → is_queued job.status ≡ false
    → OthersBefore me deadline history
    → IsHeldBy me deadline (run c history job) × ((run c history job).status ≡ job.status)
unfolding run
run-IsHeldBy c me deadline [] job h q o = (h, refl)
run-IsHeldBy c me deadline ((now, a) ∷ rest) job h q o =
    let s = step-IsHeldBy c me deadline now a job h q o.0.0 o.0.1 in
    let ih = run-IsHeldBy c me deadline rest (step c (now, a) job) s.0 (rw (s.1) q) o.1 in
    (ih.0, ih.1 ∙ s.1)

-- The holder has the job in the state in which a claim leaves it.
abbrev pub IsRunningOn : Identity → ℕ → JobDoc → Type 0
IsRunningOn me deadline job =
    IsHeldBy me deadline job × (is_claimed_or_running (current_runtime job).queue_state ≡ true)

abbrev pub NoCancel : Action → Type 0
NoCancel (cancels r) = ⊥
NoCancel _ = Unit

step-IsRunningOn :
    (c : Config) (me : Identity) (deadline now : ℕ) (a : Action) (job : JobDoc)
    → IsRunningOn me deadline job
    → now < deadline
    → OfOthers me a
    → NoCancel a
    → step c (now, a) job ≡ job
unfolding step claim renew finalize persist_queued cancel reconcile release is_lease_valid
    is_owned_by_this_runtime
step-IsRunningOn c me deadline now (claims other) job h lt o n = ground arith
step-IsRunningOn c me deadline now (renews other) job h lt o n = ground arith
step-IsRunningOn c me deadline now (finalizes other e) job h lt o n = ground arith
step-IsRunningOn c me deadline now (persists s) job h lt o n = ground arith
step-IsRunningOn c me deadline now (cancels r) job h lt o n = absurd n
step-IsRunningOn c me deadline now (reconciles other) job h lt o n = ground arith
step-IsRunningOn c me deadline now (releases other) job h lt o n = ground arith

run-IsRunningOn :
    (c : Config) (me : Identity) (deadline : ℕ) (history : List (ℕ × Action)) (job : JobDoc)
    → IsRunningOn me deadline job
    → OthersBefore me deadline history
    → All (λ entry. NoCancel entry.1) history
    → run c history job ≡ job
unfolding run
run-IsRunningOn c me deadline [] job h o n = refl
run-IsRunningOn c me deadline ((now, a) ∷ rest) job h o n =
    rw (step-IsRunningOn c me deadline now a job h o.0.0 o.0.1 n.0)
      (run-IsRunningOn c me deadline rest job h o.1 n.1)

-- From a committed claim until its lease runs out, while nobody asks to cancel, no transaction of
-- another runtime commits on the job: the document stays as the claim wrote it.
pub claim_excludes :
    (c : Config) (me : Identity) (now : ℕ) (job job' : JobDoc) (history : List (ℕ × Action))
    → claim c me now job ≡ some job'
    → OthersBefore me (now + c.lease_duration_ms) history
    → All (λ entry. NoCancel entry.1) history
    → run c history job' ≡ job'
claim_excludes c me now job job' history h =
    run-IsRunningOn c me (now + c.lease_duration_ms) history job'
      ((claim-IsHeldBy c me now job job' h).0, claim-is_running c me now job job' h)

-- A lease is no protection while the job's status is still `queued` and its holder has been asked
-- to cancel: a claim of another runtime commits, takes the job over and drops the request.
pub claim_steals_cancelling :
    (c : Config) (me other : Identity) (deadline now : ℕ) (job : JobDoc)
    → IsHeldBy me deadline job
    → now < deadline
    → is_queued job.status ≡ true
    → (current_runtime job).queue_state ≡ some QueueState.cancelling
    → (job' : JobDoc) × (claim c other now job ≡ some job')
      × ((current_runtime job').runtime_instance_id ≡ some other.runtime_instance_id)
      × ((current_runtime job').cancellation_requested ≡ false)
unfolding claim is_lease_valid is_owned_by_this_runtime
claim_steals_cancelling c me other deadline now job h lt q s =
    (or_else (claim c other now job) job, ground arith, ground arith, ground arith)

-- A runtime that holds a job whose status is still `queued` can claim it once more: the guard of
-- a claim looks only at the leases of other runtimes.
pub claim_twice :
    (c : Config) (me : Identity) (now later : ℕ) (job job' : JobDoc)
    → claim c me now job ≡ some job'
    → is_some (claim c me later job') ≡ true
unfolding claim is_lease_valid is_owned_by_this_runtime
claim_twice c me now later job job' h = ground arith
