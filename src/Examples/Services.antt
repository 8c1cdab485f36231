-- ===== src/Examples/Services.antt =====
-- Pages of jobs, a tracked file and a failure, on concrete data.
use ai_worker_platform.Common.{
  ℕ, Bool, true, false, not, Option, none, some, is_some, [], ◌∷◌, ◌&&◌, ◌≡◌, refl, arith, List,
  ◌+◌, ◌==◌,
}
use ai_worker_platform.Query.Filter.{date}
use ai_worker_platform.Job.Status.{failed}
use ai_worker_platform.Examples.Files.{dates, file}
use ai_worker_platform.JobService.Pages.{
  Given, quotient, whole, limit_of, list_jobs, pages, pages_lem,
}
use ai_worker_platform.JobService.Files.{
  answered, Availability, Tracked, get_file_availability, resolve_tracked_file_path,
  get_download_file, is_expired, unavailable_by_cleanup, get_file_by_job, find_tracked, locate,
}
use ai_worker_platform.JobService.Downloads.{
  answers, IsOffered, resolve_tracked_file_path-get_file_availability, get_download_file_lem,
}
use ai_worker_platform.JobService.Rerun.{
  Input, Source, Inputs, ready, rerun_inputs, rerun_skill, inputs_of, take_inputs, read_input,
  readable_path, take_input, require_template,
}
use ai_worker_platform.JobService.Rerunning.{TakenOver, rerun_inputs_lem}
use ai_worker_platform.JobService.Failures.{
  FailedJob, Details, ran_pr, reconciliation_incomplete, get_failure_summary, incomplete_message,
  all_counted,
}
use ai_worker_platform.JobService.Diagnosis.{
  Diagnosis, SafeError, get_failure_diagnosis, serialize_safe_error, result_incomplete,
}
use ai_worker_platform.JobService.Explained.{incomplete_result_agrees}

abbrev three_jobs : List ℕ
three_jobs = 5 ∷ 4 ∷ 3 ∷ []

-- A limit of 2.
abbrev by_two : Given
by_two = quotient 2 0

two_is_whole : limit_of by_two ≡ whole 2
unfolding limit_of
two_is_whole = refl

pages_lem_example : pages 2 by_two three_jobs ≡ three_jobs
pages_lem_example = (pages_lem 2 by_two three_jobs).3 2 two_is_whole (omega arith)

abbrev six_jobs : List ℕ
six_jobs = 6 ∷ 5 ∷ 4 ∷ 3 ∷ 2 ∷ 1 ∷ []

-- With a limit of 2.5, the pages leave out the fifth of six jobs.
fraction_skips : pages 3 (quotient 5 1) six_jobs ≡ 6 ∷ 5 ∷ 4 ∷ 3 ∷ 1 ∷ []
unfolding list_jobs
fraction_skips = refl

-- The file 1 of job 5, kept until the instant 50.
abbrev kept : Tracked
kept = record { file = file 1 5 (date 50); is_zip = false; created = 90 }

abbrev path_of : Option ℕ → ℕ
path_of none = 0
path_of (some path) = path

abbrev anywhere : ℕ → Bool
anywhere path = true

resolve_tracked_file_path-get_file_availability_example :
    (a : Availability) × (get_file_availability dates anywhere anywhere anywhere 40 kept.file
      ≡ answered a)
    × (answers (resolve_tracked_file_path dates anywhere anywhere anywhere 40 kept.file)
        ≡ a.available && true)
    × (is_some a.unavailable_reason ≡ not a.available)
resolve_tracked_file_path-get_file_availability_example =
    resolve_tracked_file_path-get_file_availability dates anywhere anywhere anywhere 40
      (path_of kept.file.file_path) kept.file refl refl (λ r. refl)

offered :
    get_download_file dates anywhere anywhere anywhere 40 (5 ∷ []) (kept ∷ []) 5 (some 1)
    ≡ answered (kept, path_of kept.file.file_path)
unfolding get_download_file get_file_by_job find_tracked resolve_tracked_file_path is_expired
    unavailable_by_cleanup locate
offered = refl

get_download_file_lem_example :
    IsOffered dates anywhere anywhere anywhere 40
      (5 ∷ [])
      5
      (some 1)
      kept
      (path_of kept.file.file_path)
get_download_file_lem_example =
    get_download_file_lem dates anywhere anywhere anywhere 40 (5 ∷ []) (kept ∷ []) 5 (some 1) kept
      (path_of kept.file.file_path) offered

abbrev details : Details
details = record {
  stage = some 3;
  scope = none;
  missing_packages = [];
  exit_code = some 1;
  technical = 9;
}

abbrev incomplete_job : FailedJob
incomplete_job = record {
  status = failed;
  worker = ran_pr;
  is_skill = true;
  has_skill_result = true;
  skill_message = some 4;
  error = some (record { code = reconciliation_incomplete; details = details });
  requested = some 8;
  generated = some 6;
  missing = some 2;
}

incomplete_result_agrees_example :
    (diagnosis : Diagnosis) × (error : SafeError) × (get_failure_summary incomplete_job
      ≡ some (all_counted 6 8 2))
    × (get_failure_diagnosis incomplete_job ≡ some diagnosis)
    × (diagnosis.summary ≡ some (all_counted 6 8 2))
    × (serialize_safe_error incomplete_job ≡ some error)
    × (error.message ≡ some (all_counted 6 8 2))
    × (error.category ≡ result_incomplete)
    × (error.counts ≡ some (some 8, some 6, some 2))
    × (error.technical ≡ none)
unfolding incomplete_message
incomplete_result_agrees_example = incomplete_result_agrees incomplete_job details refl refl

-- A rerun of the BOM generator, skill 9, with one file and its template.
abbrev rerun_source : Source
rerun_source = record { is_skill = true; skill_id = some 9 }

abbrev data_input : Input
data_input = record { file = file 1 5 (date 50); input_name = 3; is_config = false; sha256 = none }

abbrev template_input : Input
template_input = record {
  file = file 2 5 (date 50);
  input_name = 4;
  is_config = true;
  sha256 = some 203;
}

abbrev rerun_made : Inputs
rerun_made = record { skill_id = 9; files = (3, 101) ∷ []; template = some 102 }

reruns :
    rerun_inputs dates anywhere anywhere anywhere
      (λ path. path)
      (λ buffer. buffer + 101)
      40
      9
      (some rerun_source)
      (data_input ∷ template_input ∷ [])
    ≡ ready rerun_made
unfolding rerun_inputs rerun_skill inputs_of take_inputs read_input readable_path take_input
    require_template resolve_tracked_file_path is_expired unavailable_by_cleanup locate
reruns = refl

rerun_inputs_lem_example :
    (rerun_source.is_skill ≡ true)
    × (rerun_source.skill_id ≡ some 9)
    × TakenOver dates anywhere anywhere anywhere
        (λ path. path)
        (λ buffer. buffer + 101)
        40
        9
        true
        (data_input ∷ template_input ∷ [])
        ((3, 101) ∷ [])
        (102 ∷ [])
    × (is_some rerun_made.template ≡ 9 == 9)
rerun_inputs_lem_example =
    rerun_inputs_lem dates anywhere anywhere anywhere (λ path. path) (λ buffer. buffer + 101) 40 9
      rerun_source (data_input ∷ template_input ∷ []) rerun_made reruns
