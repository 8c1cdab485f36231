-- ===== src/Skill/Endings.antt =====
-- How a run of a skill ends.
use text.Mathlib.Text.{◌==◌ as str_eq}
use ai_worker_platform.Common.{
  ◌≡◌, refl, [], ◌∷◌, some, List, ℕ, ◌⊎◌, true, or_else, arith, Option, or_option, String, none,
  All, Bool, eqb→eq, false, subst, ◌≢◌, ◌∙◌, ap,
}
use ai_worker_platform.Skill.Reconciliation.{ResultStatus, Invalid, validate_reconciliation}
use ai_worker_platform.Job.Status.{Status, is_terminal}
use ai_worker_platform.Skill.Runner.{
  Ending, run_generic_skill_job, Output, Manifest, completed, Produced, failed, status_of,
  cancelled, Result, nothing, produced, is_for, unreadable, Validated, Validation, ending_of,
  fail_job, finish_job, persist_result, start_job, validate_body, validate_result, accepted, passes,
  rejected, first_error, output_error,
}
use ai_worker_platform.Job.Document.{JobDoc}

-- The event that is published fits the status.
abbrev pub Fits : Ending → Status → Type 0
Fits completed s = (s ≡ Status.completed) ⊎ (s ≡ Status.completed_with_warning)
Fits failed s = s ≡ Status.failed
Fits cancelled s = (s ≡ Status.cancelled) ⊎ (s ≡ Status.cancelled_with_partial_result)

or_option-none {ℓ} : {A : Type ℓ} (a b : Option A) → or_option a b ≡ none → (a ≡ none) × (b ≡ none)
or_option-none none b h = (refl, h)
or_option-none (some x) b h = cc

passes-none : (e : Option Invalid) → passes e ≡ true → e ≡ none
passes-none none h = refl
passes-none (some e) h = cc

validate_body-some :
    (result : Result) (v : Validated)
    → validate_body result ≡ some v
    → (result.status ≡ some v.status)
      × (result.outputs ≡ some v.outputs)
      × (passes (validate_reconciliation result.reconciliation v.status) ≡ true)
      × (v.result ≡ result)
unfolding validate_body
validate_body-some result v h = ground arith

validate_result-accepted :
    (result : Result) (job_id : ℕ) (skill : Manifest) (v : Validated)
    → validate_result result job_id skill ≡ accepted v
    → (str_eq result.schema_version "1.0" ≡ true)
      × (is_for job_id skill result ≡ true)
      × (validate_body result ≡ some v)
      × (first_error v.outputs ≡ none)
unfolding validate_result
validate_result-accepted result job_id skill v h = ground arith

-- The two ways in which a run with a readable result ends.
finish_job-rejected :
    (now : ℕ) (skill : Manifest) (result : Result) (job : JobDoc) (code : Option String)
    → validate_result result job.job_id skill ≡ rejected code
    → finish_job now skill (produced result) job
      ≡ (fail_job now (or_else code "RESULT_CONTRACT_INVALID") job, failed)
unfolding finish_job
finish_job-rejected now skill result job code e = rw (e, finish_job)

finish_job-accepted :
    (now : ℕ) (skill : Manifest) (result : Result) (job : JobDoc) (v : Validated)
    → validate_result result job.job_id skill ≡ accepted v
    → finish_job now skill (produced result) job
      ≡ (persist_result now v job, ending_of (status_of v.status v.outputs))
unfolding finish_job
finish_job-accepted now skill result job v e = rw (e, finish_job)

-- How a job stands at its end.
abbrev pub HasEnded : ℕ → Option ℕ → JobDoc × Ending → Type 0
HasEnded later started (job, ending) =
    (is_terminal job.status ≡ true)
    × (job.completed_at ≡ some later)
    × (job.started_at ≡ started)
    × Fits ending job.status

-- An output that stands in the workspace as the result declares it.
abbrev pub IsInPlace : Output → Type 0
IsInPlace o =
    (o.is_inside_workspace ≡ true)
    × (o.stat_error ≡ none)
    × (o.is_file ≡ true)
    × ((sha : String) → o.declared_sha256 ≡ some sha → str_eq sha o.actual_sha256 ≡ true)

output_error-IsInPlace : (o : Output) → output_error o ≡ none → IsInPlace o
unfolding output_error
output_error-IsInPlace o h =
    (ground arith, ground (arith, h), ground arith, λ sha e. ground (arith, h, e))

first_error-All : (outputs : List Output) → first_error outputs ≡ none → All IsInPlace outputs
unfolding first_error
first_error-All [] h = tt
first_error-All (o ∷ rest) h =
    let (head, tail) = or_option-none (output_error o) (first_error rest) h in
    (output_error-IsInPlace o head, first_error-All rest tail)

abbrev pub success : Bool → ResultStatus
success false = ResultStatus.succeeded
success true = ResultStatus.succeeded_with_warning

abbrev pub success_status : Bool → Status
success_status false = Status.completed
success_status true = Status.completed_with_warning

-- The result behind a job that ended well, with or without warnings.
abbrev pub EndedWell : ℕ → Manifest → Produced → Bool → Type 0
EndedWell job_id skill left warned =
    (result : Result) × (outputs : List Output) × (left ≡ produced result)
    × (str_eq result.schema_version "1.0" ≡ true)
    × (result.job_id ≡ job_id)
    × (result.skill_id ≡ skill.skill_id)
    × (str_eq result.skill_version skill.version ≡ true)
    × (result.status ≡ some (success warned))
    × (validate_reconciliation result.reconciliation (success warned) ≡ none)
    × (result.outputs ≡ some outputs)
    × All IsInPlace outputs

status_of-success_status :
    (s : ResultStatus) (outputs : List Output) (warned : Bool)
    → status_of s outputs ≡ success_status warned
    → s ≡ success warned
status_of-success_status ResultStatus.cancelled [] false h = cc
status_of-success_status ResultStatus.cancelled [] true h = cc
status_of-success_status ResultStatus.cancelled (o ∷ rest) false h = cc
status_of-success_status ResultStatus.cancelled (o ∷ rest) true h = cc
status_of-success_status ResultStatus.succeeded outputs false h = refl
status_of-success_status ResultStatus.succeeded outputs true h = cc
status_of-success_status ResultStatus.succeeded_with_warning outputs false h = cc
status_of-success_status ResultStatus.succeeded_with_warning outputs true h = refl
status_of-success_status ResultStatus.failed outputs false h = cc
status_of-success_status ResultStatus.failed outputs true h = cc

failed-success_status : (warned : Bool) → Status.failed ≢ success_status warned
failed-success_status false h = cc
failed-success_status true h = cc

accepted-EndedWell :
    (result : Result) (job_id : ℕ) (skill : Manifest) (v : Validated) (warned : Bool)
    → validate_result result job_id skill ≡ accepted v
    → v.status ≡ success warned
    → EndedWell job_id skill (produced result) warned
accepted-EndedWell result job_id skill v warned e s =
    let (schema, identity, body, files) = validate_result-accepted result job_id skill v e in
    let (status, outputs, passed, source) = validate_body-some result v body in
    let reconciled = passes-none _ passed in
    (
      result,
      v.outputs,
      refl,
      schema,
      ground (arith, eqb→eq result.job_id job_id),
      ground (arith, eqb→eq result.skill_id skill.skill_id),
      ground arith,
      status ∙ ap some s,
      subst (λ t. validate_reconciliation result.reconciliation t ≡ none) s reconciled,
      outputs,
      first_error-All v.outputs files,
    )

validated-EndedWell :
    (now : ℕ) (skill : Manifest) (result : Result) (job : JobDoc) (validation : Validation)
    (warned : Bool)
    → validate_result result job.job_id skill ≡ validation
    → (finish_job now skill (produced result) job).0.status ≡ success_status warned
    → EndedWell job.job_id skill (produced result) warned
unfolding fail_job persist_result
validated-EndedWell now skill result job (rejected code) warned e h = absurd (
    failed-success_status warned (
      subst (λ (r : JobDoc × Ending). r.0.status ≡ success_status warned)
        (finish_job-rejected now skill result job code e) h))
validated-EndedWell now skill result job (accepted v) warned e h =
    accepted-EndedWell result job.job_id skill v warned e (
      status_of-success_status v.status v.outputs warned (
        subst (λ (r : JobDoc × Ending). r.0.status ≡ success_status warned)
          (finish_job-accepted now skill result job v e) h))

finish_job-EndedWell :
    (now : ℕ) (skill : Manifest) (left : Produced) (job : JobDoc) (warned : Bool)
    → (finish_job now skill left job).0.status ≡ success_status warned
    → EndedWell job.job_id skill left warned
unfolding finish_job fail_job
finish_job-EndedWell now skill (nothing timed_out) job warned h =
    absurd (failed-success_status warned h)
finish_job-EndedWell now skill unreadable job warned h = absurd (failed-success_status warned h)
finish_job-EndedWell now skill (produced result) job warned h =
    validated-EndedWell now skill result job (validate_result result job.job_id skill) warned refl h

-- A job whose status is completed, or completed with a warning, after the run of its skill has that
-- status by a result that was checked: result.json has schema version 1.0, names this job, this
-- skill and its version, and reports that very success; its reconciliation passes; and every output
-- that it lists is a file in the workspace that has the checksum declared for it, if one is.
pub completed_is_accepted :
    (now later : ℕ) (skill : Manifest) (left : Produced) (job : JobDoc) (warned : Bool)
    → (run_generic_skill_job now later skill left job).0.status ≡ success_status warned
    → EndedWell job.job_id skill left warned
unfolding run_generic_skill_job start_job
completed_is_accepted now later skill left job warned h =
    finish_job-EndedWell later skill left (start_job now job) warned h
