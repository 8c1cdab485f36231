-- ===== src/JobService/Files.antt =====
-- The availability and the download of a job's files in backend/src/services/jobService.js. The
-- disk is three tests of a path: whether it lies in the storage root, whether something is there,
-- and whether it can be read. A retention date is a date, or missing.
use Prim.Native.Nat.{ℕ}
use ai_worker_platform.Common.{
  Bool, false, not, Option, none, some, List, [], ◌∷◌, ◌==◌, ◌&&◌, ◌||◌, if◌then◌else◌, ltb, ◌≡◌,
  refl,
}
use ai_worker_platform.Common.Sets.{has}
use ai_worker_platform.Query.Filter.{Dates, boolean, same, is_there}
use ai_worker_platform.Cleanup.Plan.{JobFile, Reason, file_available, deleted_at, retention_until}

pub data FileError : Type 0 where
  job_not_found file_id_invalid file_not_found file_expired : FileError
  file_not_available zip_not_ready outside_root : FileError

pub data Answer {ℓ} (A : Type ℓ) : Type ℓ where
  answered : A → Answer A
  refused : FileError → Answer A

infixl 5 ◌>>=◌
abbrev pub ◌>>=◌ {ℓ κ} : {A : Type ℓ} {B : Type κ} → Answer A → (A → Answer B) → Answer B
answered a >>= f = f a
refused e >>= f = refused e

pub >>=-eq-answered {ℓ κ} :
    {A : Type ℓ} {B : Type κ} (m : Answer A) (f : A → Answer B) {b : B}
    → (m >>= f) ≡ answered b
    → (a : A) × (m ≡ answered a) × (f a ≡ answered b)
>>=-eq-answered (answered a) f h = (a, refl, h)
>>=-eq-answered (refused e) f h = cc

-- unavailableReason
pub data UnavailableReason : Type 0 where
  is_expired_file cleanup_removed file_missing : UnavailableReason
  cleaned : Reason → UnavailableReason

pub record Availability : Type 0 where
  pub available : Bool
  pub expired : Bool
  pub exists : Bool
  pub unavailable_reason : Option UnavailableReason

-- A record with the fields that this service reads besides; `zip` is its fileType 'zip_package'.
pub record Tracked : Type 0 where
  pub file : JobFile
  pub is_zip : Bool
  pub created : ℕ

-- file.deletedAt || file.fileAvailable === false
unfoldable pub unavailable_by_cleanup : JobFile → Bool
unavailable_by_cleanup file =
    is_there (file.values deleted_at) || same (file.values file_available) (boolean false)

-- cleanupReason || 'cleanup_removed'
abbrev pub removal_reason : Option Reason → UnavailableReason
removal_reason none = cleanup_removed
removal_reason (some r) = cleaned r

-- JobFile.findById, which also finds deleted records
unfoldable pub find_tracked : ℕ → List Tracked → Option Tracked
find_tracked id [] = none
find_tracked id (t ∷ rest) =
    let later = find_tracked id rest in if t.file.id == id then some t else later

-- The newest of two, the first of those that are as new.
abbrev pub newer : Option Tracked → Tracked → Option Tracked
newer none t = some t
newer (some u) t = if ltb t.created u.created then some u else some t

-- JobFile.findOne({ jobId, fileType: 'zip_package' }).sort({ createdAt: -1 })
unfoldable pub newest_zip : ℕ → List Tracked → Option Tracked
newest_zip job_id [] = none
newest_zip job_id (t ∷ rest) =
    let later = newest_zip job_id rest in
    if t.is_zip && t.file.job_id == job_id && not t.file.logical_deleted
    then newer later t
    else later

module _ (d : Dates) (inside exists readable : ℕ → Bool) where
  open d use {time}

  -- isExpired
  unfoldable pub is_expired : ℕ → JobFile → Bool
  is_expired now file =
      file.is_expired
      || (is_there (file.values retention_until)
          && elim (time (file.values retention_until)) [ none ↦ false | some t ↦ ltb t now ])

  -- assertPathInsideRoot(root, path.join(root, file.filePath)); `join` refuses a missing path
  unfoldable pub locate : Option ℕ → Answer ℕ
  locate none = refused outside_root
  locate (some path) = if inside path then answered path else refused outside_root

  -- What getFileAvailability says of a file at its path.
  unfoldable pub availability_at : ℕ → JobFile → ℕ → Availability
  availability_at now file path = record {
    available = exists path && not (is_expired now file) && not (unavailable_by_cleanup file);
    expired = is_expired now file;
    exists = exists path;
    unavailable_reason =
        if is_expired now file
        then some is_expired_file
        else if unavailable_by_cleanup file
        then some (removal_reason file.cleanup_reason)
        else if exists path
        then none
        else some file_missing;
  }

  -- getFileAvailability
  unfoldable pub get_file_availability : ℕ → JobFile → Answer Availability
  unfolding locate availability_at
  get_file_availability now file =
      locate file.file_path >>= λ path. answered (availability_at now file path)

  -- resolveTrackedFilePath
  unfoldable pub resolve_tracked_file_path : ℕ → JobFile → Answer ℕ
  unfolding locate
  resolve_tracked_file_path now file =
      if is_expired now file || unavailable_by_cleanup file
      then refused file_expired
      else locate file.file_path >>= λ path.
          if readable path then answered path else refused file_not_available

  -- getFileByJob, with the identifiers of the jobs that are there; `none` is a blank identifier
  unfoldable pub get_file_by_job : List ℕ → List Tracked → ℕ → Option ℕ → Answer Tracked
  get_file_by_job jobs files job_id file_id =
      if has job_id jobs
      then elim file_id [
        | none ↦ refused file_id_invalid
        | some id ↦ elim (find_tracked id files) [
          | none ↦ refused file_not_found
          | some t ↦ if t.file.job_id == job_id then answered t else refused file_not_found
        ]
      ]
      else refused job_not_found

  -- getDownloadFile
  unfoldable pub get_download_file : ℕ → List ℕ → List Tracked → ℕ → Option ℕ → Answer (Tracked × ℕ)
  get_download_file now jobs files job_id file_id =
      get_file_by_job jobs files job_id file_id >>= λ t.
      resolve_tracked_file_path now t.file >>= λ path. answered (t, path)

  -- getZipDownloadFile
  unfoldable pub get_zip_download_file : ℕ → List ℕ → List Tracked → ℕ → Answer (Tracked × ℕ)
  get_zip_download_file now jobs files job_id =
      if has job_id jobs
      then elim (newest_zip job_id files) [
        | none ↦ refused zip_not_ready
        | some t ↦ resolve_tracked_file_path now t.file >>= λ path. answered (t, path)
      ]
      else refused job_not_found
