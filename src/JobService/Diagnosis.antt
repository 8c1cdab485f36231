-- ===== src/JobService/Diagnosis.antt =====
-- `getFailureDiagnosis` and `serializeSafeError` of backend/src/services/jobService.js, without
-- the Python executable and the command that is recommended with it.
use ai_worker_platform.Common.{
  ℕ, true, false, Option, none, some, List, [], ◌&&◌, if◌then◌else◌, filter, Bool,
}
use ai_worker_platform.Job.Status.{is_failed}
use ai_worker_platform.JobService.Failures.{
  WorkerKind, ran_pr, pr_auditor, ErrorCode, preflight_failed, worker_timeout,
  worker_process_failed, ran_invalid_ecc_output, ran_zero_valid_ecc_output,
  reconciliation_incomplete, engine_pin_unapproved, worker_error, other_code, Package,
  is_allowed_package, Details, JobError, FailedJob, Message, execution_error, time_limit,
  process_error, packages_not_installed, no_workbook_output, engine_pin_message, Title,
  failed_title, worker_failed, incomplete_result, engine_pin_title, dependency_title, timeout_title,
  process_title, output_title, named, incomplete_message_of, is_incomplete, get_failure_summary,
}

pub record Diagnosis : Type 0 where
  pub category : ErrorCode
  pub title : Title
  pub summary : Option Message
  pub missing_packages : List Package
  pub scope : Option ℕ
  pub stage : Option ℕ
  pub exit_code : Option ℕ
  pub technical : Option ℕ

-- /^[A-Z0-9_]+$/.test(code) ? code : 'WORKER_ERROR'
abbrev pub well_formed : ErrorCode → ErrorCode
well_formed (other_code true n) = other_code true n
well_formed (other_code false n) = worker_error
well_formed code = code

-- allowedCategories.includes(code) ? code : 'WORKER_ERROR'
unfoldable pub category_of : WorkerKind → ErrorCode → ErrorCode
category_of worker (other_code good n) = worker_error
category_of pr_auditor engine_pin_unapproved = engine_pin_unapproved
category_of worker engine_pin_unapproved = worker_error
category_of worker code = code

-- scope, where the failure is of the plain PR worker
abbrev pub plain_scope : WorkerKind → Details → Option ℕ
plain_scope pr_auditor details = none
plain_scope ran_pr details = none
plain_scope _ details = details.scope

-- The stage, as a RAN job's words name it.
abbrev pub ran_stage : WorkerKind → Details → Option ℕ
ran_stage ran_pr details = details.stage
ran_stage _ details = none

-- The diagnosis of an error by its category.
unfoldable pub diagnosis_by_category : FailedJob → Details → ErrorCode → Diagnosis
diagnosis_by_category job details category =
    let plain : Diagnosis = record {
      category = category;
      title = failed_title (named job.worker);
      summary = some (execution_error (named job.worker));
      missing_packages = [];
      scope = none;
      stage = details.stage;
      exit_code = none;
      technical = some details.technical;
    } in
    elim category [
      | reconciliation_incomplete ↦ record plain {
        title = incomplete_result;
        summary = some (incomplete_message_of job);
        technical = none;
      }
      | engine_pin_unapproved ↦ record plain {
        title = engine_pin_title;
        summary = some engine_pin_message;
        technical = none;
      }
      | preflight_failed ↦ record plain {
        title = dependency_title;
        summary = some packages_not_installed;
        missing_packages = filter is_allowed_package details.missing_packages;
      }
      | worker_timeout ↦ record plain {
        title = timeout_title;
        summary = some (time_limit (named job.worker) (ran_stage job.worker details));
        scope = plain_scope job.worker details;
      }
      | worker_process_failed ↦ record plain {
        title = process_title;
        summary = some (process_error (named job.worker) (ran_stage job.worker details));
        scope = plain_scope job.worker details;
        exit_code = details.exit_code;
      }
      | ran_invalid_ecc_output ↦ record plain {
        title = output_title;
        summary = some no_workbook_output;
      }
      | ran_zero_valid_ecc_output ↦ record plain {
        title = output_title;
        summary = some no_workbook_output;
      }
      | _ ↦ plain
    ]

abbrev pub bare_diagnosis : ErrorCode → Title → Option Message → Diagnosis
bare_diagnosis category title summary = record {
  category = category;
  title = title;
  summary = summary;
  missing_packages = [];
  scope = none;
  stage = none;
  exit_code = none;
  technical = none;
}

-- The diagnosis of a job with an error.
unfoldable pub diagnosis_of_error : FailedJob → JobError → Diagnosis
unfolding category_of diagnosis_by_category
diagnosis_of_error job error =
    if job.is_skill && job.has_skill_result
    then bare_diagnosis (well_formed error.code) worker_failed (get_failure_summary job)
    else diagnosis_by_category job error.details (category_of job.worker error.code)

-- getFailureDiagnosis
unfoldable pub get_failure_diagnosis : FailedJob → Option Diagnosis
unfolding diagnosis_of_error
get_failure_diagnosis job =
    if is_failed job.status
    then some (elim job.error [
      | none ↦
          bare_diagnosis worker_error (failed_title (named job.worker))
            (some (execution_error (named job.worker)))
      | some error ↦ diagnosis_of_error job error
    ])
    else none

-- The categories whose technical text is left out.
abbrev pub is_untold : ErrorCode → Bool
is_untold engine_pin_unapproved = true
is_untold reconciliation_incomplete = true
is_untold _ = false

-- The category that is given out: an incomplete result has its own.
pub data SafeCategory : Type 0 where
  result_incomplete : SafeCategory
  category_code : ErrorCode → SafeCategory

pub record SafeError : Type 0 where
  pub code : ErrorCode
  pub category : SafeCategory
  pub title : Title
  pub message : Option Message
  pub missing_packages : List Package
  pub scope : Option ℕ
  pub stage : Option ℕ
  pub exit_code : Option ℕ
  pub technical : Option ℕ
  pub counts : Option (Option ℕ × Option ℕ × Option ℕ)

-- serializeSafeError, of the diagnosis that it asks for, and of the code of the job's error without
-- the spaces around it. Of the counts it has the requested, the generated and the missing sites; the
-- other four, which it reads from the job in the same way, are left out.
unfoldable pub safe_error_of : FailedJob → JobError → Diagnosis → SafeError
safe_error_of job error diagnosis =
    let code = well_formed error.code in
    record {
      code = code;
      category = if is_incomplete code then result_incomplete else category_code diagnosis.category;
      title = diagnosis.title;
      message = get_failure_summary job;
      missing_packages = diagnosis.missing_packages;
      scope = diagnosis.scope;
      stage = diagnosis.stage;
      exit_code = diagnosis.exit_code;
      technical = diagnosis.technical;
      counts =
          if is_incomplete code then some (job.requested, job.generated, job.missing) else none;
    }

-- serializeSafeError
unfoldable pub serialize_safe_error : FailedJob → Option SafeError
unfolding safe_error_of
serialize_safe_error job = elim (if is_failed job.status then job.error else none) [
  | none ↦ none
  | some error ↦ elim (get_failure_diagnosis job) [
    | none ↦ none
    | some diagnosis ↦ some (safe_error_of job error diagnosis)
  ]
]
