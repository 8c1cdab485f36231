-- ===== src/Frontend/Listing.antt =====
-- The list of a tab's running jobs stays sorted, live and without doubles under the updates of
-- frontend/src/views/shared/workerRuntime.js, and holds what was put last.
use ai_worker_platform.Common.{
  ℕ, Bool, true, List, [], ◌∷◌, ◌+◌, ◌≤◌, ◌==◌, ◌&&◌, ◌≡◌, ◌∙◌, refl, filter, all, leb, arith, ◌++◌,
  Bool-cases, if◌then◌else◌, not, inl, inr,
}
use ai_worker_platform.Common.Sets.{count, bit, IsDistinct}
use ai_worker_platform.Frontend.Sessions.{
  SessionJob, created_time, is_live, insert_newest, sort_newest, normalize_jobs, ids, remove_job,
  upsert_job,
}

-- Each job is as new as the next one, or newer.
abbrev pub is_sorted : List SessionJob → Bool
is_sorted [] = true
is_sorted (job ∷ []) = true
is_sorted (job ∷ other ∷ jobs) =
    let rest = is_sorted (other ∷ jobs) in leb (created_time other) (created_time job) && rest

-- The newest first, none at its end, none twice.
pub record IsListing (jobs : List SessionJob) : Type 0 where
  pub sorted : is_sorted jobs ≡ true
  pub live : all is_live jobs ≡ true
  pub distinct : IsDistinct (ids jobs)

insert_newest-is_sorted :
    (job : SessionJob) (jobs : List SessionJob)
    → is_sorted jobs ≡ true
    → is_sorted (insert_newest job jobs) ≡ true
unfolding insert_newest
insert_newest-is_sorted job [] h = refl
insert_newest-is_sorted job (a ∷ []) h = ground arith
insert_newest-is_sorted job (a ∷ b ∷ jobs) h =
    ground (arith, insert_newest-is_sorted job (b ∷ jobs))

sort_newest-is_sorted : (jobs : List SessionJob) → is_sorted (sort_newest jobs) ≡ true
unfolding sort_newest
sort_newest-is_sorted [] = refl
sort_newest-is_sorted (job ∷ jobs) =
    insert_newest-is_sorted job (sort_newest jobs) (sort_newest-is_sorted jobs)

insert_newest-live :
    (job : SessionJob) (jobs : List SessionJob)
    → all is_live (insert_newest job jobs) ≡ is_live job && all is_live jobs
unfolding insert_newest
insert_newest-live job [] = refl
insert_newest-live job (a ∷ jobs) = ground (arith, insert_newest-live job jobs)

pub sort_newest-live : (jobs : List SessionJob) → all is_live (sort_newest jobs) ≡ all is_live jobs
unfolding sort_newest
sort_newest-live [] = refl
sort_newest-live (job ∷ jobs) =
    ground (arith, insert_newest-live job (sort_newest jobs), sort_newest-live jobs)

pub insert_newest-count :
    (a : ℕ) (job : SessionJob) (jobs : List SessionJob)
    → count a (ids (insert_newest job jobs)) ≡ bit (job.job_id == a) + count a (ids jobs)
unfolding insert_newest
insert_newest-count a job [] = refl
insert_newest-count a job (b ∷ jobs) = ground (arith, insert_newest-count a job jobs)

pub sort_newest-count :
    (a : ℕ) (jobs : List SessionJob) → count a (ids (sort_newest jobs)) ≡ count a (ids jobs)
unfolding sort_newest
sort_newest-count a [] = refl
sort_newest-count a (job ∷ jobs) =
    ground (arith, insert_newest-count a job (sort_newest jobs), sort_newest-count a jobs)

filter_live : (jobs : List SessionJob) → all is_live (filter is_live jobs) ≡ true
filter_live [] = refl
filter_live (job ∷ jobs) = ground (arith, filter_live jobs)

filter-count :
    (p : SessionJob → Bool) (a : ℕ) (jobs : List SessionJob)
    → count a (ids (filter p jobs)) ≤ count a (ids jobs)
filter-count p a [] = omega arith
filter-count p a (job ∷ jobs) = ground (arith, filter-count p a jobs)

-- A list that the server answers with is put in order.
pub normalize_jobs-IsListing :
    (items : List SessionJob) → IsDistinct (ids items) → IsListing (normalize_jobs items)
unfolding normalize_jobs
normalize_jobs-IsListing items d = record {
  sorted = sort_newest-is_sorted (filter is_live items);
  live = sort_newest-live (filter is_live items) ∙ filter_live items;
  distinct = λ a.
      omega (arith, sort_newest-count a (filter is_live items), filter-count is_live a items, d a);
}

abbrev is_bound : SessionJob → SessionJob → Bool
is_bound job other = leb (created_time other) (created_time job)

is_sorted-bounds :
    (job : SessionJob) (jobs : List SessionJob)
    → is_sorted (job ∷ jobs) ≡ true
    → all (is_bound job) jobs ≡ true
is_sorted-bounds job [] h = refl
is_sorted-bounds job (a ∷ jobs) h = ground (arith, all-bound job a jobs, is_sorted-bounds a jobs)
  where
    all-bound :
        (job a : SessionJob) (jobs : List SessionJob)
        → is_bound job a ≡ true
        → all (is_bound a) jobs ≡ true
        → all (is_bound job) jobs ≡ true
    all-bound job a [] h k = refl
    all-bound job a (b ∷ jobs) h k = ground (arith, all-bound job a jobs)

bounds-is_sorted :
    (job : SessionJob) (jobs : List SessionJob)
    → all (is_bound job) jobs ≡ true
    → is_sorted jobs ≡ true
    → is_sorted (job ∷ jobs) ≡ true
bounds-is_sorted job [] h k = refl
bounds-is_sorted job (a ∷ jobs) h k = ground arith

pub all-filter {ℓ} :
    {A : Type ℓ} (p q : A → Bool) (xs : List A) → all p xs ≡ true → all p (filter q xs) ≡ true
all-filter p q [] h = refl
all-filter p q (x ∷ xs) h = ground (arith, all-filter p q xs)

filter-is_sorted :
    (q : SessionJob → Bool) (jobs : List SessionJob)
    → is_sorted jobs ≡ true
    → is_sorted (filter q jobs) ≡ true
filter-is_sorted q [] h = refl
filter-is_sorted q (job ∷ jobs) h = ground (
  arith,
  is_sorted-bounds job jobs h,
  all-filter (is_bound job) q jobs,
  filter-is_sorted q jobs,
  is_sorted_tail job jobs h,
  bounds-is_sorted job (filter q jobs),
)
  where
    is_sorted_tail :
        (job : SessionJob) (jobs : List SessionJob)
        → is_sorted (job ∷ jobs) ≡ true
        → is_sorted jobs ≡ true
    is_sorted_tail job [] h = refl
    is_sorted_tail job (a ∷ jobs) h = ground arith

pub remove_job-IsListing :
    (job_id : ℕ) (jobs : List SessionJob) → IsListing jobs → IsListing (remove_job job_id jobs)
unfolding remove_job
remove_job-IsListing job_id jobs p =
    let keeps = λ (job : SessionJob). not (job.job_id == job_id) in
    record {
      sorted = filter-is_sorted keeps jobs p.sorted;
      live = all-filter is_live keeps jobs p.live;
      distinct = λ a. omega (arith, filter-count keeps a jobs, p.distinct a);
    }

pub remove_job-count :
    (a job_id : ℕ) (jobs : List SessionJob)
    → count a (ids (remove_job job_id jobs)) ≡ (if job_id == a then 0 else count a (ids jobs))
unfolding remove_job
remove_job-count a job_id [] = ground arith
remove_job-count a job_id (job ∷ jobs) = ground (arith, remove_job-count a job_id jobs)

pub append-count :
    (a : ℕ) (jobs : List SessionJob) (job : SessionJob)
    → count a (ids (jobs ++ (job ∷ []))) ≡ count a (ids jobs) + bit (job.job_id == a)
append-count a [] job = omega arith
append-count a (b ∷ jobs) job = omega (arith, append-count a jobs job)

-- Any job may be put into a listing.
pub upsert_job-IsListing :
    (job : SessionJob) (jobs : List SessionJob) → IsListing jobs → IsListing (upsert_job job jobs)
unfolding upsert_job
upsert_job-IsListing job jobs p =
    let remaining = remove_job job.job_id jobs in
    elim (Bool-cases (is_live job)) [
      | inl live ↦ rw live (
          normalize_jobs-IsListing (remaining ++ (job ∷ [])) (λ a. ground (
            arith,
            append-count a remaining job,
            remove_job-count a job.job_id jobs,
            p.distinct a,
          )))
      | inr ended ↦ rw ended (
          normalize_jobs-IsListing remaining
            (λ a. ground (arith, remove_job-count a job.job_id jobs, p.distinct a)))
    ]
