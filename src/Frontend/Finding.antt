-- ===== src/Frontend/Finding.antt =====
-- What `find` sees of the running jobs after an update of the list in
-- frontend/src/views/shared/workerRuntime.js.
use ai_worker_platform.Common.{
  ℕ, Bool, true, not, none, some, or_option, List, [], ◌∷◌, ◌++◌, ◌==◌, ◌&&◌, ◌≡◌, refl,
  if◌then◌else◌, filter, all, arith, Bool-cases, inl, inr,
}
use ai_worker_platform.Common.Sets.{count, IsDistinct}
use ai_worker_platform.Frontend.Sessions.{
  SessionJob, is_live, insert_newest, sort_newest, normalize_jobs, remove_job, upsert_job, find_job,
  ids,
}
use ai_worker_platform.Frontend.Listing.{
  IsListing, sort_newest-count, remove_job-count, append-count, all-filter,
}

find_job-insert_newest :
    (job_id : ℕ) (job : SessionJob) (jobs : List SessionJob)
    → count job.job_id (ids jobs) ≡ 0
    → find_job job_id (insert_newest job jobs)
      ≡ (if job.job_id == job_id then some job else find_job job_id jobs)
unfolding find_job insert_newest
find_job-insert_newest job_id job [] h = refl
find_job-insert_newest job_id job (a ∷ jobs) h =
    ground (arith, find_job-insert_newest job_id job jobs)

find_job-sort_newest :
    (job_id : ℕ) (jobs : List SessionJob)
    → IsDistinct (ids jobs)
    → find_job job_id (sort_newest jobs) ≡ find_job job_id jobs
unfolding find_job sort_newest
find_job-sort_newest job_id [] d = refl
find_job-sort_newest job_id (job ∷ jobs) d = ground (
  arith,
  find_job-insert_newest job_id job (sort_newest jobs),
  sort_newest-count job.job_id jobs,
  d job.job_id,
  find_job-sort_newest job_id jobs (λ a. ground (arith, d a)),
)

pub find_job-remove_job :
    (job_id removed : ℕ) (jobs : List SessionJob)
    → find_job job_id (remove_job removed jobs)
      ≡ (if removed == job_id then none else find_job job_id jobs)
unfolding find_job remove_job
find_job-remove_job job_id removed [] = ground arith
find_job-remove_job job_id removed (job ∷ jobs) =
    ground (arith, find_job-remove_job job_id removed jobs)

find_job-append :
    (job_id : ℕ) (jobs : List SessionJob) (job : SessionJob)
    → find_job job_id (jobs ++ (job ∷ []))
      ≡ or_option (find_job job_id jobs) (if job.job_id == job_id then some job else none)
unfolding find_job
find_job-append job_id [] job = refl
find_job-append job_id (a ∷ jobs) job = ground (arith, find_job-append job_id jobs job)

filter_same {ℓ} : {A : Type ℓ} (p : A → Bool) (xs : List A) → all p xs ≡ true → filter p xs ≡ xs
filter_same p [] h = refl
filter_same p (x ∷ xs) h = ground (arith, filter_same p xs)

all-append {ℓ} :
    {A : Type ℓ} (p : A → Bool) (xs : List A) (x : A) → all p (xs ++ (x ∷ [])) ≡ all p xs && p x
all-append p [] x = ground arith
all-append p (y ∷ xs) x = ground (arith, all-append p xs x)

remove_job-live :
    (job_id : ℕ) (jobs : List SessionJob)
    → all is_live jobs ≡ true
    → all is_live (remove_job job_id jobs) ≡ true
unfolding remove_job
remove_job-live job_id jobs h = all-filter is_live (λ job. not (job.job_id == job_id)) jobs h

-- In a listing, the job that was put last is found as it was put, or not at all if it has ended;
-- every other one is found as before.
pub find_job-upsert_job :
    (job_id : ℕ) (job : SessionJob) (jobs : List SessionJob)
    → IsListing jobs
    → find_job job_id (upsert_job job jobs) ≡ (
        if job.job_id == job_id
        then (if is_live job then some job else none)
        else find_job job_id jobs)
unfolding upsert_job normalize_jobs
find_job-upsert_job job_id job jobs p =
    let remaining = remove_job job.job_id jobs in
    let live = remove_job-live job.job_id jobs p.live in
    elim (Bool-cases (is_live job)) [
      | inl running ↦ ground (
        arith,
        filter_same is_live (remaining ++ (job ∷ [])),
        all-append is_live remaining job,
        find_job-sort_newest job_id (remaining ++ (job ∷ [])) (λ a. ground (
          arith,
          append-count a remaining job,
          remove_job-count a job.job_id jobs,
          p.distinct a,
        )),
        find_job-append job_id remaining job,
        find_job-remove_job job_id job.job_id jobs,
      )
      | inr ended ↦ ground (
        arith,
        filter_same is_live remaining,
        find_job-sort_newest job_id remaining
            (λ a. ground (arith, remove_job-count a job.job_id jobs, p.distinct a)),
        find_job-remove_job job_id job.job_id jobs,
      )
    ]
