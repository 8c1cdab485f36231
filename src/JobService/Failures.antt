-- ===== src/JobService/Failures.antt =====
-- What the API tells of a failed job: `getFailureSummary` of backend/src/services/jobService.js. A
-- message is a constructor for its wording, with the parts that are put in; the redacted texts
-- (`technicalDetails`, a skill's own words) are numbers that stand for them.
use ai_worker_platform.Common.{
  ℕ, Bool, true, false, Option, none, some, List, [], ◌∷◌, ◌&&◌, if◌then◌else◌, filter,
}
use ai_worker_platform.Job.Status.{Status, is_failed}

pub data WorkerKind : Type 0 where
  mw_pr ran_pr pr_auditor other_worker : WorkerKind

-- error.code; a code that is not named here is well formed, /^[A-Z0-9_]+$/, or not
pub data ErrorCode : Type 0 where
  preflight_failed worker_timeout worker_process_failed : ErrorCode
  ran_invalid_ecc_output ran_zero_valid_ecc_output : ErrorCode
  reconciliation_incomplete engine_pin_unapproved worker_error : ErrorCode
  other_code : Bool → ℕ → ErrorCode

pub data Package : Type 0 where
  pandas openpyxl : Package
  other_package : ℕ → Package

-- error.details: the stage as `sanitizeRanStageName` leaves it, the scope if it is one that
-- `normalizePrScope` of backend/src/utils/prScope.js knows for the worker.
pub record Details : Type 0 where
  pub stage : Option ℕ
  pub scope : Option ℕ
  pub missing_packages : List Package
  pub exit_code : Option ℕ
  pub technical : ℕ

-- A missing code is WORKER_ERROR.
pub record JobError : Type 0 where
  pub code : ErrorCode
  pub details : Details

-- What these functions read of a job. `skill_message` is the redacted message of a skill's result,
-- the counts are `none` where `knownCountOrNull` answers null.
pub record FailedJob : Type 0 where
  pub status : Status
  pub worker : WorkerKind
  pub is_skill : Bool
  pub has_skill_result : Bool
  pub skill_message : Option ℕ
  pub error : Option JobError
  pub requested : Option ℕ
  pub generated : Option ℕ
  pub missing : Option ℕ

-- The wordings.
pub data Message : Type 0 where
  execution_failed execution_error execution_timed_out process_failed : WorkerKind → Message
  stage_timed_out stage_failed scope_timed_out scope_failed : ℕ → Message
  time_limit process_error : WorkerKind → Option ℕ → Message
  dependency_missing : List Package → Message
  dependency_check_failed packages_not_installed no_valid_output no_workbook_output : Message
  engine_pin_message : Message
  all_counted : ℕ → ℕ → ℕ → Message
  missing_unknown : ℕ → ℕ → Message
  reconciliation_unknown : Message
  skill_words : ℕ → Message

pub data Title : Type 0 where
  failed_title : WorkerKind → Title
  worker_failed incomplete_result engine_pin_title dependency_title : Title
  timeout_title process_title output_title : Title

-- The kinds of worker that a wording tells apart: any other counts as the plain PR worker.
abbrev pub named : WorkerKind → WorkerKind
named pr_auditor = pr_auditor
named ran_pr = ran_pr
named _ = mw_pr

abbrev pub is_auditor : WorkerKind → Bool
is_auditor pr_auditor = true
is_auditor _ = false

abbrev pub is_ran : WorkerKind → Bool
is_ran ran_pr = true
is_ran _ = false

-- getIncompleteResultMessage
unfoldable pub incomplete_message : Option ℕ → Option ℕ → Option ℕ → Message
incomplete_message (some requested) (some generated) (some missing) =
    all_counted generated requested missing
incomplete_message (some requested) (some generated) none = missing_unknown generated requested
incomplete_message (some requested) none missing = reconciliation_unknown
incomplete_message none generated missing = reconciliation_unknown

abbrev pub incomplete_message_of : FailedJob → Message
incomplete_message_of job = incomplete_message job.requested job.generated job.missing

abbrev pub is_incomplete : ErrorCode → Bool
is_incomplete reconciliation_incomplete = true
is_incomplete _ = false

abbrev pub is_allowed_package : Package → Bool
is_allowed_package (other_package n) = false
is_allowed_package _ = true

abbrev pub missing_message : List Package → Message
missing_message [] = dependency_check_failed
missing_message (p ∷ ps) = dependency_missing (p ∷ ps)

-- `stage ? <with the stage> : <without>`, of a RAN job; by the scope for the plain PR worker
abbrev pub staged : WorkerKind → Message → (ℕ → Message) → (ℕ → Message) → Details → Message
staged pr_auditor plain by_stage by_scope details = plain
staged ran_pr plain by_stage by_scope details = elim details.stage [
  | none ↦ plain
  | some s ↦ by_stage s
]
staged _ plain by_stage by_scope details = elim details.scope [ none ↦ plain | some s ↦ by_scope s ]

-- The summary by the code, behind the special cases.
unfoldable pub summary_by_code : WorkerKind → ErrorCode → Details → Message
summary_by_code worker preflight_failed details =
    missing_message (filter is_allowed_package details.missing_packages)
summary_by_code worker worker_timeout details =
    staged worker (execution_timed_out (named worker)) stage_timed_out scope_timed_out details
summary_by_code worker worker_process_failed details =
    staged worker (process_failed (named worker)) stage_failed scope_failed details
summary_by_code worker ran_invalid_ecc_output details = no_valid_output
summary_by_code worker ran_zero_valid_ecc_output details = no_valid_output
summary_by_code pr_auditor engine_pin_unapproved details = engine_pin_message
summary_by_code worker _ details = execution_failed (named worker)

-- The summary of an error.
unfoldable pub summary_of_error : FailedJob → JobError → Message
unfolding summary_by_code incomplete_message
summary_of_error job error =
    if is_incomplete error.code
    then incomplete_message_of job
    else elim (if job.is_skill && job.has_skill_result then job.skill_message else none) [
      | some words ↦ skill_words words
      | none ↦ summary_by_code job.worker error.code error.details
    ]

-- getFailureSummary
unfoldable pub get_failure_summary : FailedJob → Option Message
unfolding summary_of_error
get_failure_summary job =
    if is_failed job.status
    then elim job.error [
      | none ↦ some (execution_failed (named job.worker))
      | some error ↦ some (summary_of_error job error)
    ]
    else none
