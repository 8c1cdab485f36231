-- ===== src/JobService/Explained.antt =====
-- When and how the API explains a failure, and that its three explanations agree:
-- backend/src/services/jobService.js.
use ai_worker_platform.Common.{
  is_some, ◌&&◌, ◌||◌, ◌≡◌, Bool-cases, List, inl, all, arith, true, inr, some, filter, none, ◌∷◌,
  [], refl,
}
use ai_worker_platform.Job.Status.{is_failed}
use ai_worker_platform.JobService.Failures.{
  reconciliation_incomplete, is_ran, is_auditor, FailedJob, get_failure_summary, summary_of_error,
  Details, JobError, Package, is_allowed_package, incomplete_message_of, ErrorCode,
  preflight_failed,
}
use ai_worker_platform.JobService.Diagnosis.{
  get_failure_diagnosis, serialize_safe_error, diagnosis_of_error, Diagnosis, SafeError, is_untold,
  result_incomplete, safe_error_of, category_of, diagnosis_by_category,
}

-- A job is explained exactly when it has failed: the summary and the diagnosis are there then, and
-- the error if the job has one.
pub explained_iff_failed :
    (job : FailedJob)
    → (is_some (get_failure_summary job) ≡ is_failed job.status)
      × (is_some (get_failure_diagnosis job) ≡ is_failed job.status)
      × (is_some (serialize_safe_error job) ≡ is_failed job.status && is_some job.error)
unfolding get_failure_summary get_failure_diagnosis serialize_safe_error
explained_iff_failed job = elim (Bool-cases (is_failed job.status)) [
  | inl f ↦ ground arith
  | inr f ↦ ground arith
]

-- A failure because the result is incomplete is told in the same words by the summary, the
-- diagnosis and the error, of whatever worker; the error is then of the category
-- RESULT_INCOMPLETE, carries the counts and no technical text.
pub incomplete_result_agrees :
    (job : FailedJob) (details : Details)
    → is_failed job.status ≡ true
    → job.error ≡ some (record { code = reconciliation_incomplete; details = details })
    → (diagnosis : Diagnosis) × (error : SafeError) × (get_failure_summary job
        ≡ some (incomplete_message_of job))
      × (get_failure_diagnosis job ≡ some diagnosis)
      × (diagnosis.summary ≡ some (incomplete_message_of job))
      × (serialize_safe_error job ≡ some error)
      × (error.message ≡ some (incomplete_message_of job))
      × (error.category ≡ result_incomplete)
      × (error.counts ≡ some (job.requested, job.generated, job.missing))
      × (error.technical ≡ none)
unfolding get_failure_summary get_failure_diagnosis serialize_safe_error summary_of_error
incomplete_result_agrees job details f e =
    let problem : JobError = record { code = reconciliation_incomplete; details = details } in
    let diagnosis = diagnosis_of_error job problem in
    (
      diagnosis,
      safe_error_of job problem diagnosis,
      ground arith,
      ground arith,
      ground arith,
      ground arith,
      ground arith,
      ground arith,
      ground arith,
      ground arith,
    )

packages_allowed :
    (ps : List Package) → all is_allowed_package (filter is_allowed_package ps) ≡ true
packages_allowed [] = refl
packages_allowed (p ∷ ps) = ground (arith, packages_allowed ps)

by_category :
    (job : FailedJob) (details : Details) (category : ErrorCode)
    → let diagnosis = diagnosis_by_category job details category in
      (all is_allowed_package diagnosis.missing_packages ≡ true)
      × (is_ran job.worker || is_auditor job.worker ≡ true → diagnosis.scope ≡ none)
      × (is_untold diagnosis.category ≡ true → diagnosis.technical ≡ none)
unfolding diagnosis_by_category
by_category job details preflight_failed =
    (packages_allowed details.missing_packages, λ h. refl, λ h. cc)
by_category job details category = (refl, λ h. ground arith, λ h. ground arith)

-- What the diagnosis of an error gives away: of the missing packages only those that are known, the
-- scope for no RAN or PR Auditor job, and no technical text when the engine is not approved or the
-- result is incomplete.
pub diagnosis_gives_away :
    (job : FailedJob) (error : JobError)
    → let diagnosis = diagnosis_of_error job error in
      (all is_allowed_package diagnosis.missing_packages ≡ true)
      × (is_ran job.worker || is_auditor job.worker ≡ true → diagnosis.scope ≡ none)
      × (is_untold diagnosis.category ≡ true → diagnosis.technical ≡ none)
unfolding diagnosis_of_error
diagnosis_gives_away job error = elim (Bool-cases (job.is_skill && job.has_skill_result)) [
  | inl skill ↦ rw skill (refl, λ h. refl, λ h. refl)
  | inr plain ↦ rw plain (by_category job error.details (category_of job.worker error.code))
]
