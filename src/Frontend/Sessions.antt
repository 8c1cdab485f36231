-- ===== src/Frontend/Sessions.antt =====
-- The jobs of a browser tab that still run: `normalizeActiveSessionJobs`, `upsertActiveSessionJob`
-- and `removeActiveSessionJob` of frontend/src/views/shared/workerRuntime.js.
use ai_worker_platform.Common.{
  ℕ, Bool, not, Option, none, some, List, [], ◌∷◌, ◌++◌, ◌==◌, if◌then◌else◌, filter, or_else, leb,
  false,
}
use ai_worker_platform.Job.Status.{Status, is_terminal}

pub record SessionJob : Type 0 where
  pub job_id : ℕ
  pub status : Option Status
  pub worker_id : Option ℕ
  pub created_at : Option ℕ
  pub pr_scope : Option ℕ

-- new Date(job.createdAt || 0)
abbrev pub created_time : SessionJob → ℕ
created_time job = or_else job.created_at 0

-- isTerminalStatus, of a status that may be missing
abbrev pub has_ended : Option Status → Bool
has_ended none = false
has_ended (some s) = is_terminal s

-- !isTerminalStatus(job.status)
abbrev pub is_live : SessionJob → Bool
is_live job = not (has_ended job.status)

-- A job put before those that are as old or older.
unfoldable pub insert_newest : SessionJob → List SessionJob → List SessionJob
insert_newest job [] = job ∷ []
insert_newest job (other ∷ jobs) =
    let later = insert_newest job jobs in
    if leb (created_time other) (created_time job) then job ∷ other ∷ jobs else other ∷ later

-- items.sort: the newest first, and in the order of before where two are as old
unfoldable pub sort_newest : List SessionJob → List SessionJob
unfolding insert_newest
sort_newest [] = []
sort_newest (job ∷ jobs) = insert_newest job (sort_newest jobs)

-- normalizeActiveSessionJobs
unfoldable pub normalize_jobs : List SessionJob → List SessionJob
unfolding sort_newest
normalize_jobs items = sort_newest (filter is_live items)

-- removeActiveSessionJob: items.filter((item) => item.jobId !== jobId)
unfoldable pub remove_job : ℕ → List SessionJob → List SessionJob
remove_job job_id jobs = filter (λ job. not (job.job_id == job_id)) jobs

-- upsertActiveSessionJob
unfoldable pub upsert_job : SessionJob → List SessionJob → List SessionJob
unfolding remove_job normalize_jobs
upsert_job job jobs =
    let remaining = remove_job job.job_id jobs in
    normalize_jobs (if is_live job then remaining ++ (job ∷ []) else remaining)

-- items.find((job) => job.jobId === jobId)
unfoldable pub find_job : ℕ → List SessionJob → Option SessionJob
find_job job_id [] = none
find_job job_id (job ∷ jobs) =
    let later = find_job job_id jobs in if job.job_id == job_id then some job else later

-- The identifiers of the jobs in a list.
abbrev pub ids : List SessionJob → List ℕ
ids [] = []
ids (job ∷ jobs) = job.job_id ∷ ids jobs
