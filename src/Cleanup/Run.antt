-- ===== src/Cleanup/Run.antt =====
-- runCleanup of backend/src/services/cleanupService.js. Whether `rm` fails at a path is an argument.
use Prim.Native.Nat.{ℕ}
use ai_worker_platform.Common.{
  Option, Bool, List, ◌++◌, ◌+◌, ◌∷◌, [], if◌then◌else◌, none, some, ◌==◌, ◌&&◌, not, false, true,
}
use ai_worker_platform.Cleanup.Plan.{
  World, classify_candidate, get_cleanup_plan, Plan, Reason, Skip, JobFile,
  retention_expired_missing_file, Classification, job_file_missing, retention_expired, skipped,
  deletable, bytes_of, file_available, deleted_at, retention_until, created_at,
}
use ai_worker_platform.Common.Maps.{delete}
use ai_worker_platform.Query.Filter.{Dates, boolean, date}

-- `JobFile.findById(id)`, which also finds deleted records
abbrev pub find_file : ℕ → List JobFile → Option JobFile
find_file id [] = none
find_file id (file ∷ rest) =
    let later = find_file id rest in if file.id == id then some file else later

abbrev pub reason_of : Option ℕ → Reason
reason_of none = retention_expired_missing_file
reason_of (some size) = retention_expired

-- What markFileUnavailable sets.
abbrev pub unavailable : Reason → ℕ → JobFile → JobFile
unavailable reason now file = record file {
  values = λ key. elim key [
    | file_available ↦ boolean false
    | deleted_at ↦ date now
    | retention_until ↦ file.values retention_until
    | created_at ↦ file.values created_at
  ];
  is_expired = true;
  expired_at = some now;
  cleanup_reason = some reason;
}

-- markFileUnavailable, whose query passes over deleted records
unfoldable pub mark_file_unavailable : ℕ → Reason → ℕ → List JobFile → List JobFile
mark_file_unavailable id reason now [] = []
mark_file_unavailable id reason now (file ∷ rest) =
    let later = mark_file_unavailable id reason now rest in
    if (file.id == id) && not file.logical_deleted
    then unavailable reason now file ∷ rest
    else file ∷ later

pub record Progress : Type 0 where
  pub world : World
  pub plan : Plan

abbrev pub with_skip : ℕ → Skip → Progress → Progress
with_skip id reason p = record p {
  plan = record (p.plan) { skips = p.plan.skips ++ ((id, reason) ∷ []) };
}

-- After the removal: the record is marked, and the candidate is among the deleted.
abbrev pub with_deletion : ℕ → Reason → ℕ → Progress → Progress
with_deletion id reason now p = record {
  world = record (p.world) { files = mark_file_unavailable id reason now p.world.files };
  plan = record (p.plan) { deleted = p.plan.deleted ++ (id ∷ []) };
}

-- deleteFileSafe, and the bytes that it frees
abbrev pub with_removal : ℕ → ℕ → Progress → Progress
with_removal path bytes p = record {
  world = record (p.world) { disk = delete path p.world.disk };
  plan = record (p.plan) { total_bytes_deleted = p.plan.total_bytes_deleted + bytes };
}

abbrev pub clean_file : (ℕ → Bool) → ℕ → ℕ → JobFile → Classification → Progress → Progress
clean_file rm_fails now id file (skipped reason) p = with_skip id reason p
clean_file rm_fails now id file (deletable path none) p =
    with_deletion id retention_expired_missing_file now p
clean_file rm_fails now id file (deletable path (some size)) p =
    if rm_fails path
    then record p { plan = record (p.plan) { errors = p.plan.errors ++ (id ∷ []) } }
    else with_deletion id retention_expired now (with_removal path (bytes_of (some size) file) p)

-- The body of the loop of runCleanup.
unfoldable pub clean_candidate : (ℕ → Bool) → ℕ → ℕ → Progress → Progress
unfolding classify_candidate mark_file_unavailable
clean_candidate rm_fails now id p = elim (find_file id p.world.files) [
  | none ↦ with_skip id job_file_missing p
  | some file ↦ clean_file rm_fails now id file (classify_candidate p.world file) p
]

unfoldable pub clean_candidates : (ℕ → Bool) → ℕ → List ℕ → Progress → Progress
unfolding clean_candidate
clean_candidates rm_fails now [] p = p
clean_candidates rm_fails now (id ∷ rest) p =
    clean_candidates rm_fails now rest (clean_candidate rm_fails now id p)

-- runCleanup
unfoldable pub run_cleanup :
    Dates → (List JobFile → List JobFile) → (ℕ → Bool) → ℕ → Bool → ℕ → World → Progress
unfolding get_cleanup_plan clean_candidates
run_cleanup d sort rm_fails retention_days dry_run now w =
    let plan = get_cleanup_plan d sort retention_days now w in
    let begun : Progress = record { world = w; plan = plan } in
    let done = clean_candidates rm_fails now plan.candidates begun in
    if dry_run then begun else done
