-- ===== src/Examples/Files.antt =====
-- Queries, cleanups and job identifiers.
use ai_worker_platform.Common.{
  [], ◌∷◌, none, some, ℕ, Bool, Option, false, ◌≡◌, ltb, refl, true, ◌+◌, ◌==◌, arith,
}
use ai_worker_platform.Cleanup.Plan.{
  file_available, deleted_at, retention_until, created_at, World, Field, JobFile, regular,
  get_cleanup_plan,
}
use ai_worker_platform.Query.Filter.{
  undefined, null, number, text, boolean, date, Dates, Value, match_filter, field, regexp, end,
}
use ai_worker_platform.Examples.Data.{queued_job, completed_job}
use ai_worker_platform.Cleanup.Run.{Progress, run_cleanup}
use ai_worker_platform.Common.Maps.{lookup}
use ai_worker_platform.Control.Identifiers.{
  reserve_unique_job_id, is_taken, reserve_unique_job_id-fresh,
}
use ai_worker_platform.Cleanup.Deletions.{unended_files_stay}
use ai_worker_platform.Cleanup.Outcomes.{candidates_have_outcomes, outcomes, skipped_ids}
use ai_worker_platform.Query.Meaning.{regexp_ignored}
use ai_worker_platform.Common.Sets.{count}

abbrev pub time_of : Value → Option ℕ
time_of undefined = none
time_of null = some 0
time_of (number n) = some n
time_of (text n) = some n
time_of (boolean b) = none
time_of (date t) = some t

-- Numbers are compared, and nothing else.
abbrev pub is_less : Value → Value → Bool
is_less (number a) (number b) = ltb a b
is_less _ _ = false

pub is_less-undefined : (v : Value) → is_less v undefined ≡ false
is_less-undefined undefined = refl
is_less-undefined null = refl
is_less-undefined (number n) = refl
is_less-undefined (text n) = refl
is_less-undefined (boolean b) = refl
is_less-undefined (date t) = refl

abbrev pub dates : Dates
dates = record {
  time = time_of;
  less = is_less;
  time_undefined = refl;
  time_null = refl;
  time_date = λ t. refl;
  less_undefined = is_less-undefined;
}

-- A search for job 5 among jobs, by a test that only 5 passes.
abbrev is_five : Value → Bool
is_five (number n) = n == 5
is_five _ = false

abbrev item : ℕ → Value
item key = number 7

regexp_ignored_example : match_filter dates item false (field 0 (regexp is_five) end) ≡ true
unfolding match_filter
regexp_ignored_example = (regexp_ignored dates item false 0 is_five [] end).0

abbrev made_at : ℕ → Value
made_at key = date 7

abbrev values_of : Value → Field → Value
values_of until file_available = boolean true
values_of until deleted_at = undefined
values_of until retention_until = until
values_of until created_at = date 90

abbrev pub file : ℕ → ℕ → Value → JobFile
file id job_id until = record {
  id = id;
  job_id = job_id;
  file_path = some (100 + id);
  file_size = 3;
  values = values_of until;
  is_expired = false;
  expired_at = none;
  cleanup_reason = none;
  logical_deleted = false;
}

-- File 1 is of a job that has ended, file 2 of one that waits; both have expired.
abbrev world : World
world = record {
  files = file 1 1 (date 50) ∷ file 2 2 (date 50) ∷ [];
  jobs = (1, completed_job 1) ∷ (2, queued_job 2) ∷ [];
  disk = (101, regular 3) ∷ (102, regular 4) ∷ [];
}

abbrev cleaned : Progress
cleaned = run_cleanup dates (λ files. files) (λ path. false) 30 false 100 world

cleans : (cleaned.plan.deleted ≡ 1 ∷ []) × (cleaned.world.disk ≡ (102, regular 4) ∷ [])
unfolding run_cleanup match_filter
cleans = (refl, refl)

unended_files_stay_example : lookup 102 cleaned.world.disk ≡ some (regular 4)
unended_files_stay_example =
    (unended_files_stay dates (λ files. files) (λ path. false) 30 100 102 false world
      (λ e. absurd (ground (arith, e)), (λ e. refl, tt))).0

candidates_have_outcomes_example :
    outcomes 1 cleaned.plan
    ≡ count 1 (skipped_ids (get_cleanup_plan dates (λ files. files) 30 100 world).skips)
      + count 1 (get_cleanup_plan dates (λ files. files) 30 100 world).candidates
candidates_have_outcomes_example =
    (candidates_have_outcomes dates (λ files. files) (λ path. false) 30 100 world).0 1

-- Job 1 exists, number 2 is reserved.
abbrev exists : ℕ → Bool
exists n = n == 1

reserves : reserve_unique_job_id exists (some (some 0)) (2 ∷ []) ≡ some (3, 2 ∷ 3 ∷ [])
unfolding reserve_unique_job_id
reserves = refl

reserve_unique_job_id-fresh_example : is_taken exists (2 ∷ []) 3 ≡ false
reserve_unique_job_id-fresh_example =
    ((reserve_unique_job_id-fresh exists (some (some 0)) (2 ∷ [])).0 3 (2 ∷ 3 ∷ []) reserves).0
