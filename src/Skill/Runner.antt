-- ===== src/Skill/Runner.antt =====
-- validateResult, persistResult, failJob and runGenericSkillJob of
-- backend/src/skills/genericSkillRunner.js. What the child process left behind is an argument:
-- whether it was stopped for its time, and the contents of result.json. Skills are numbers.
use ai_worker_platform.Common.{
  ◌>>=◌, ◌==◌, or_option, [], ◌∷◌, none, some, if◌then◌else◌, Bool, List, Option, String, ℕ, length,
  not, true, ◌&&◌, false, or_else, or_option, ◌-◌, is_some,
}
use ai_worker_platform.Skill.Reconciliation.{
  ResultStatus, undefined, not_array, array, Dispositions, validate_reconciliation, Invalid,
  Reconciliation, counts_of,
}
use text.Mathlib.Text.{◌==◌ as str_eq}
use ai_worker_platform.Job.Document.{SiteCounts, JobDoc, JobError}
use ai_worker_platform.Job.Status.{Status}

-- An entry of `result.outputs`, with what the file system says of its path. `stat_error` is the
-- code with which `stat` fails, if it does.
pub record Output : Type 0 where
  pub is_inside_workspace : Bool
  pub stat_error : Option String
  pub is_file : Bool
  pub declared_sha256 : Option String
  pub actual_sha256 : String
  pub is_zip : Bool
  pub file_size : ℕ

-- result.json. An unsupported status and lists that are no arrays are `none`; `message` is that of
-- the summary, cut to 1000 characters.
pub record Result : Type 0 where
  pub schema_version : String
  pub job_id : ℕ
  pub skill_id : ℕ
  pub skill_version : String
  pub status : Option ResultStatus
  pub outputs : Option (List Output)
  pub warnings : Option ℕ
  pub reconciliation : Option Reconciliation
  pub message : Option String
  pub error : Option JobError

pub record Manifest : Type 0 where
  pub skill_id : ℕ
  pub version : String

-- A result that was accepted.
pub record Validated : Type 0 where
  pub status : ResultStatus
  pub outputs : List Output
  pub warnings : ℕ
  pub result : Result

-- `item.sha256 && item.sha256.toLowerCase() !== actual`, both in lower case
abbrev pub is_declared : Output → Bool
is_declared item = elim item.declared_sha256 [
  | none ↦ true
  | some sha ↦ str_eq sha item.actual_sha256
]

-- The code of the error that one output raises, if it raises one.
unfoldable pub output_error : Output → Option (Option String)
output_error item =
    if not item.is_inside_workspace
    then some none
    else if is_some item.stat_error
    then some item.stat_error
    else if not item.is_file
    then some none
    else if not (is_declared item)
    then some none
    else none

-- The loop over the outputs, which ends at the first error.
unfoldable pub first_error : List Output → Option (Option String)
unfolding output_error
first_error [] = none
first_error (item ∷ rest) = let later = first_error rest in or_option (output_error item) later

-- What validateResult returns, or the code of the error that it throws.
pub data Validation : Type 0 where
  rejected : Option String → Validation
  accepted : Validated → Validation

abbrev pub passes : Option Invalid → Bool
passes none = true
passes (some error) = false

abbrev pub is_for : ℕ → Manifest → Result → Bool
is_for job_id skill result =
    (result.job_id == job_id)
    && (result.skill_id == skill.skill_id)
    && str_eq result.skill_version skill.version

abbrev pub only_if : Bool → Validated → Option Validated
only_if true v = some v
only_if false v = none

-- validateResult after its checks of the head of the result
unfoldable pub validate_body : Result → Option Validated
validate_body result = do
  status ← result.status
  outputs ← result.outputs
  warnings ← result.warnings
  only_if (passes (validate_reconciliation result.reconciliation status))
      (record { status = status; outputs = outputs; warnings = warnings; result = result })

abbrev pub with_outputs : Validated → Option (Option String) → Validation
with_outputs v none = accepted v
with_outputs v (some code) = rejected code

-- validateResult
unfoldable pub validate_result : Result → ℕ → Manifest → Validation
unfolding validate_body first_error
validate_result result job_id skill =
    if not (str_eq result.schema_version "1.0")
    then rejected none
    else if not (is_for job_id skill result)
    then rejected none
    else elim (validate_body result) [
      | none ↦ rejected none
      | some v ↦ with_outputs v (first_error v.outputs)
    ]

-- `statusMap[result.status]`
abbrev pub status_of : ResultStatus → List Output → Status
status_of ResultStatus.succeeded outputs = Status.completed
status_of ResultStatus.succeeded_with_warning outputs = Status.completed_with_warning
status_of ResultStatus.failed outputs = Status.failed
status_of ResultStatus.cancelled [] = Status.cancelled
status_of ResultStatus.cancelled (o ∷ rest) = Status.cancelled_with_partial_result

abbrev pub is_cancelled : ResultStatus → Bool
is_cancelled ResultStatus.cancelled = true
is_cancelled _ = false

-- `if (Array.isArray(siteDispositions))`
abbrev pub count_sites : Dispositions → SiteCounts → SiteCounts
count_sites undefined counts = counts
count_sites not_array counts = counts
count_sites (array items) counts = record counts {
  matched = some (length items);
  unmatched = some 0;
}

-- `if (result.reconciliation)`, for counts that were checked
abbrev pub record_counts : Option Reconciliation → SiteCounts → SiteCounts
record_counts none counts = counts
record_counts (some r) counts = elim (counts_of r) [
  | none ↦ counts
  | some c ↦ count_sites r.site_dispositions (record counts {
    requested = some c.requested;
    generated = some c.generated;
    review_required = some c.review_required;
    approved_ignored = some c.approved_ignored;
    duplicate_blocked = some c.duplicate_blocked;
    failed = some c.failed;
    unaccounted = some c.unaccounted;
    accounted = some (c.requested - c.unaccounted);
    consistent = some true;
  })
]

-- The file record of one output: `zip_package` or `skill_output`.
pub record OutputFile : Type 0 where
  pub job_id : ℕ
  pub is_zip_package : Bool
  pub file_size : ℕ
  pub retention_until : ℕ

abbrev pub files_of : ℕ → ℕ → List Output → List OutputFile
files_of job_id retention_until [] = []
files_of job_id retention_until (o ∷ rest) =
    record {
      job_id = job_id;
      is_zip_package = o.is_zip;
      file_size = o.file_size;
      retention_until = retention_until;
    }
    ∷ files_of job_id retention_until rest

-- persistResult, on the job that is saved
unfoldable pub persist_result : ℕ → Validated → JobDoc → JobDoc
persist_result now v job = record job {
  status = status_of v.status v.outputs;
  completed_at = some now;
  cancelled_at = if is_cancelled v.status then some now else job.cancelled_at;
  output_file_count = some (length v.outputs);
  warning_count = some v.warnings;
  final_worker_summary = or_else v.result.message "Skill execution completed.";
  site_counts = record_counts v.result.reconciliation job.site_counts;
  error = or_option v.result.error job.error;
}

abbrev pub invalid_message : String
invalid_message = "The skill did not return a valid result."

-- failJob, on the job that is saved
unfoldable pub fail_job : ℕ → String → JobDoc → JobDoc
fail_job now code job = record job {
  status = Status.failed;
  completed_at = some now;
  final_worker_summary = invalid_message;
  error = some (record {
    code = code;
    category = "internal";
    message = invalid_message;
    retryable = false;
    runtime_instance_id = none;
    previous_machine_id = none;
    previous_runtime_instance_id = none;
  });
}

-- What the child process left behind. `unreadable` is a result.json that is not JSON.
pub data Produced : Type 0 where
  nothing : Bool → Produced
  unreadable : Produced
  produced : Result → Produced

-- The start of runGenericSkillJob: the job is saved as `generating`
unfoldable pub start_job : ℕ → JobDoc → JobDoc
start_job now job = record job {
  status = Status.generating;
  started_at = or_option job.started_at (some now);
}

-- The event that is published at the end.
pub data Ending : Type 0 where
  completed failed cancelled : Ending

abbrev pub ending_of : Status → Ending
ending_of Status.cancelled = cancelled
ending_of Status.cancelled_with_partial_result = cancelled
ending_of Status.failed = failed
ending_of _ = completed

-- The `try` block of runGenericSkillJob after the process has ended, and its `catch`
unfoldable pub finish_job : ℕ → Manifest → Produced → JobDoc → JobDoc × Ending
unfolding validate_result persist_result fail_job
finish_job now skill (nothing timed_out) job =
    (fail_job now (if timed_out then "WORKER_TIMEOUT" else "RESULT_CONTRACT_INVALID") job, failed)
finish_job now skill unreadable job = (fail_job now "RESULT_CONTRACT_INVALID" job, failed)
finish_job now skill (produced result) job = elim (validate_result result job.job_id skill) [
  | rejected code ↦ (fail_job now (or_else code "RESULT_CONTRACT_INVALID") job, failed)
  | accepted v ↦ (persist_result now v job, ending_of (status_of v.status v.outputs))
]

-- runGenericSkillJob
unfoldable pub run_generic_skill_job : ℕ → ℕ → Manifest → Produced → JobDoc → JobDoc × Ending
unfolding start_job finish_job
run_generic_skill_job now later skill left job = finish_job later skill left (start_job now job)
