-- ===== src/Queue/Effects.antt =====
-- What each function of the queue does to the lists of one runtime.
use ai_worker_platform.Common.{
  ◌≡◌, refl, ◌⊎◌, [], ◌∷◌, ℕ, Bool, List, Option, is_some, arith, false, true, or_else,
}
use ai_worker_platform.Queue.Memory.{
  enqueue_job, execute_finish, transact_job, Runtime, is_here, admit,
}
use ai_worker_platform.Queue.Control.{
  cancel_queued_job, reconcile_job, renew_lease, index_of, splice,
}
use ai_worker_platform.Job.Document.{JobDoc}
use ai_worker_platform.Queue.Lease.{Config, Identity}
use ai_worker_platform.Common.Sets.{has, remove}

pub transact_job-memory :
    (job_id : ℕ) (update : JobDoc → Option JobDoc) (r : Runtime)
    → (transact_job job_id update r).0.memory ≡ r.memory
unfolding transact_job
transact_job-memory job_id update r = ground arith

pub enqueue_job-memory :
    (now job_id : ℕ) (recovered : Bool) (r : Runtime)
    → ((enqueue_job now job_id recovered r).memory ≡ r.memory)
      ⊎ ((is_here job_id r.memory ≡ false)
          × ((enqueue_job now job_id recovered r).memory ≡ admit job_id r.memory))
unfolding enqueue_job
enqueue_job-memory now job_id recovered r = ground arith

pub reconcile_job-memory :
    (me : Identity) (now job_id : ℕ) (r : Runtime)
    → ((reconcile_job me now job_id r).memory ≡ r.memory)
      ⊎ ((has job_id r.memory.known_job_ids ≡ false)
          × ((reconcile_job me now job_id r).memory ≡ admit job_id r.memory))
unfolding reconcile_job
reconcile_job-memory me now job_id r = ground arith

pub renew_lease-memory :
    (c : Config) (me : Identity) (now job_id : ℕ) (r : Runtime)
    → (renew_lease c me now job_id r).memory ≡ r.memory
unfolding renew_lease
renew_lease-memory c me now job_id r = ground arith

pub execute_finish-memory :
    (me : Identity) (now job_id : ℕ) (has_error : Bool) (r : Runtime)
    → (execute_finish me now job_id has_error r).memory ≡ record (r.memory) {
      heartbeat_timers = remove job_id r.memory.heartbeat_timers;
      active_job_ids = remove job_id r.memory.active_job_ids;
      known_job_ids = remove job_id r.memory.known_job_ids;
    }
unfolding execute_finish
execute_finish-memory me now job_id has_error r = ground arith

pub cancel_queued_job-memory :
    (now job_id : ℕ) (allow_running : Bool) (r : Runtime)
    → ((cancel_queued_job now job_id allow_running r).0.memory ≡ r.memory)
      ⊎ ((is_some (index_of job_id r.memory.queued_job_ids) ≡ true)
          × ((cancel_queued_job now job_id allow_running r).0.memory ≡ record (r.memory) {
            queued_job_ids =
                splice
                  (or_else (index_of job_id r.memory.queued_job_ids) 0)
                  r.memory.queued_job_ids;
            known_job_ids = remove job_id r.memory.known_job_ids;
          }))
unfolding cancel_queued_job
cancel_queued_job-memory now job_id allow_running r = ground arith

-- Splicing at the index just found removes the first occurrence.
pub splice-index_of :
    (job_id : ℕ) (xs : List ℕ)
    → is_some (index_of job_id xs) ≡ true
    → splice (or_else (index_of job_id xs) 0) xs ≡ remove job_id xs
splice-index_of job_id [] h = cc
splice-index_of job_id (x ∷ xs) h = ground (arith, splice-index_of job_id xs)

pub has-index_of : (job_id : ℕ) (xs : List ℕ) → is_some (index_of job_id xs) ≡ has job_id xs
has-index_of job_id [] = refl
has-index_of job_id (x ∷ xs) = ground (arith, has-index_of job_id xs)
