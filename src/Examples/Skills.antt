-- ===== src/Examples/Skills.antt =====
-- A skill that generates two of three sites, with a warning.
use ai_worker_platform.Examples.Data.{queued_job}
use Prim.Native.Nat.{ℕ}
use ai_worker_platform.Skill.Reconciliation.{
  Counts, Reconciliation, validate_reconciliation, Disposition, counts_of, ResultStatus, array,
  accounted,
}
use ai_worker_platform.Skill.Runner.{Manifest, Output, run_generic_skill_job, Result, produced}
use ai_worker_platform.Job.Status.{Status}
use ai_worker_platform.Skill.Endings.{EndedWell, completed_is_accepted}
use ai_worker_platform.Common.{some, true, none, ◌∷◌, ◌≡◌, [], refl}
use ai_worker_platform.Control.Text.{trim, is_space}
use ai_worker_platform.Skill.Accounts.{validate_reconciliation_sound}

abbrev site : ℕ → Disposition
site n = record { site_code = b'S' ∷ n ∷ []; disposition = b'g' ∷ [] }

abbrev three_sites : Reconciliation
three_sites = record {
  requested_count = some 3;
  generated_count = some 2;
  review_required_count = some 1;
  approved_ignored_count = some 0;
  duplicate_blocked_count = some 0;
  failed_count = some 0;
  unaccounted_count = some 0;
  site_dispositions = array (site b'1' ∷ site b'2' ∷ site b'3' ∷ []);
}

three_sites_pass :
    validate_reconciliation (some three_sites) ResultStatus.succeeded_with_warning ≡ none
unfolding validate_reconciliation trim is_space
three_sites_pass = refl

validate_reconciliation_sound_example :
    (c : Counts) × (counts_of three_sites ≡ some c) × (c.requested ≡ accounted c)
validate_reconciliation_sound_example =
    let t =
      validate_reconciliation_sound three_sites ResultStatus.succeeded_with_warning
        three_sites_pass in
    (t.0, t.1, t.2)

abbrev skill : Manifest
skill = record { skill_id = 7; version = "1.2.0" }

abbrev archive : Output
archive = record {
  is_inside_workspace = true;
  stat_error = none;
  is_file = true;
  declared_sha256 = some "ab12";
  actual_sha256 = "ab12";
  is_zip = true;
  file_size = 512;
}

abbrev result : Result
result = record {
  schema_version = "1.0";
  job_id = 1;
  skill_id = 7;
  skill_version = "1.2.0";
  status = some ResultStatus.succeeded_with_warning;
  outputs = some (archive ∷ []);
  warnings = some 1;
  reconciliation = some three_sites;
  message = none;
  error = none;
}

completes :
    (run_generic_skill_job 10 90 skill (produced result) (queued_job 1)).0.status
    ≡ Status.completed_with_warning
unfolding run_generic_skill_job validate_reconciliation trim is_space
completes = refl

completed_is_accepted_example : EndedWell 1 skill (produced result) true
completed_is_accepted_example =
    completed_is_accepted 10 90 skill (produced result) (queued_job 1) true completes
