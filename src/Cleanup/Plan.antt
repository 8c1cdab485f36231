-- ===== src/Cleanup/Plan.antt =====
-- The candidates and their classification in backend/src/services/cleanupService.js. The disk is a
-- map from paths to what `lstat` finds there; a path with no entry does not exist.
use Prim.Native.Nat.{ℕ, suc}
use ai_worker_platform.Common.{
  List, Option, ◌++◌, Bool, filter, some, ◌-◌, ◌∷◌, none, true, ◌*◌, ◌+◌, false, if◌then◌else◌,
  zero, not, [],
}
use ai_worker_platform.Query.Filter.{
  Condition, Dates, match_filter, Filter, Value, operators, field, no_operators, boolean, date,
  any_of, cons, end, nil,
}
use ai_worker_platform.Job.Status.{Status, is_running_job, is_terminal}
use ai_worker_platform.Job.Document.{JobDoc}
use ai_worker_platform.Common.Maps.{lookup}

-- The fields of a file record that the cleanup's query reads.
pub data Field : Type 0 where
  file_available deleted_at retention_until created_at : Field

-- cleanupReason
pub data Reason : Type 0 where
  retention_expired retention_expired_missing_file : Reason

-- A file record, as of backend/src/models/JobFile.js.
pub record JobFile : Type 0 where
  pub id : ℕ
  pub job_id : ℕ
  pub file_path : Option ℕ
  pub file_size : ℕ
  pub values : Field → Value
  pub is_expired : Bool
  pub expired_at : Option ℕ
  pub cleanup_reason : Option Reason
  pub logical_deleted : Bool

-- What stands at a path; `outside` is a path that leaves the storage root.
pub data Entry : Type 0 where
  regular : ℕ → Entry
  symlink directory unreadable outside : Entry

pub record World : Type 0 where
  pub files : List JobFile
  pub jobs : List (ℕ × JobDoc)
  pub disk : List (ℕ × Entry)

-- The reasons for which a file is skipped.
pub data Skip : Type 0 where
  missing_file_path outside_storage_root symlink_skipped not_regular_file stat_failed : Skip
  job_missing active_job non_terminal_job job_file_missing : Skip

-- The action for a candidate: the path to delete, with the size of the file unless it is missing.
pub data Classification : Type 0 where
  skipped : Skip → Classification
  deletable : ℕ → Option ℕ → Classification

-- getRetentionCutoff
abbrev pub get_retention_cutoff : ℕ → ℕ → ℕ
get_retention_cutoff retention_days now = now - retention_days * 24 * 60 * 60 * 1000

abbrev pub lte_date : ℕ → Condition
lte_date t = operators (record no_operators { lte = some (date t) })

abbrev pub is_missing : Condition
is_missing = operators (record no_operators { exists = some false })

-- The filter of getCandidateJobFiles.
abbrev pub candidate_filter : ℕ → ℕ → Filter Field
candidate_filter retention_days now =
    field file_available (operators (record no_operators { ne = some (boolean false) })) (
      field deleted_at is_missing (
        any_of
          (cons (field retention_until (lte_date now) end) (
            cons
              (field retention_until is_missing
                (field created_at (lte_date (get_retention_cutoff retention_days now)) end))
              nil))
          end))

unfoldable pub is_candidate : Dates → ℕ → ℕ → JobFile → Bool
unfolding match_filter
is_candidate d retention_days now file =
    match_filter d file.values file.logical_deleted (candidate_filter retention_days now)

-- inspectDeletionSafety, for a path
abbrev pub inspect_entry : ℕ → Option Entry → Classification
inspect_entry path none = deletable path none
inspect_entry path (some (regular size)) = deletable path (some size)
inspect_entry path (some symlink) = skipped symlink_skipped
inspect_entry path (some directory) = skipped not_regular_file
inspect_entry path (some unreadable) = skipped stat_failed
inspect_entry path (some outside) = skipped outside_storage_root

-- inspectDeletionSafety
unfoldable pub inspect_deletion_safety : List (ℕ × Entry) → JobFile → Classification
inspect_deletion_safety disk file = elim file.file_path [
  | none ↦ skipped missing_file_path
  | some path ↦ inspect_entry path (lookup path disk)
]

-- ACTIVE_JOB_STATUSES of the cleanup
abbrev pub is_cleanup_active : Status → Bool
is_cleanup_active Status.queued = true
is_cleanup_active s = is_running_job s

-- `Job.findOne({ jobId })`, which reads `jobs/<id>` with no filter: a job that is logically deleted
-- is found.
abbrev pub find_job : ℕ → List (ℕ × JobDoc) → Option JobDoc
find_job job_id jobs = lookup job_id jobs

-- classifyCandidate
unfoldable pub classify_candidate : World → JobFile → Classification
unfolding inspect_deletion_safety
classify_candidate w file = elim (find_job file.job_id w.jobs) [
  | none ↦ skipped job_missing
  | some job ↦
      if is_cleanup_active job.status
      then skipped active_job
      else if not (is_terminal job.status)
      then skipped non_terminal_job
      else inspect_deletion_safety w.disk file
]

pub record Plan : Type 0 where
  pub candidates : List ℕ
  pub skips : List (ℕ × Skip)
  pub deleted : List ℕ
  pub errors : List ℕ
  pub total_bytes_candidate : ℕ
  pub total_bytes_deleted : ℕ

abbrev pub empty_plan : Plan
empty_plan = record {
  candidates = [];
  skips = [];
  deleted = [];
  errors = [];
  total_bytes_candidate = 0;
  total_bytes_deleted = 0;
}

-- `classification.safety.fileSize || file.fileSize || 0`
abbrev pub bytes_of : Option ℕ → JobFile → ℕ
bytes_of none file = file.file_size
bytes_of (some zero) file = file.file_size
bytes_of (some (suc n)) file = suc n

-- The body of the loop of getCleanupPlan.
abbrev pub plan_file : JobFile → Classification → Plan → Plan
plan_file file (deletable path size) plan = record plan {
  candidates = plan.candidates ++ (file.id ∷ []);
  total_bytes_candidate = plan.total_bytes_candidate + bytes_of size file;
}
plan_file file (skipped reason) plan = record plan {
  skips = plan.skips ++ ((file.id, reason) ∷ []);
}

unfoldable pub plan_files : World → List JobFile → Plan → Plan
unfolding classify_candidate
plan_files w [] plan = plan
plan_files w (file ∷ rest) plan =
    plan_files w rest (plan_file file (classify_candidate w file) plan)

-- getCleanupPlan; the order in which the query sorts its result is an argument
unfoldable pub get_cleanup_plan : Dates → (List JobFile → List JobFile) → ℕ → ℕ → World → Plan
unfolding is_candidate plan_files
get_cleanup_plan d sort retention_days now w =
    plan_files w (sort (filter (is_candidate d retention_days now) w.files)) empty_plan
