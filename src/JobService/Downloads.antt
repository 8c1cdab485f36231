-- ===== src/JobService/Downloads.antt =====
-- When a job's file can be downloaded, next to what the service says of its availability:
-- backend/src/services/jobService.js, together with the cleanup.
use Prim.Native.Nat.{ℕ}
use ai_worker_platform.Common.{
  Bool, true, false, not, some, ◌&&◌, ◌≡◌, refl, is_some, List, arith, Option, Option-cases, inl,
  none, subst, ◌∷◌, Bool-cases, inr, ◌==◌, [],
}
use ai_worker_platform.Query.Filter.{Dates}
use ai_worker_platform.Cleanup.Plan.{JobFile, Reason}
use ai_worker_platform.Cleanup.Run.{unavailable}
use ai_worker_platform.JobService.Files.{
  Answer, answered, refused, file_expired, Availability, get_file_availability,
  resolve_tracked_file_path, availability_at, get_download_file, is_expired, Tracked,
  unavailable_by_cleanup, >>=-eq-answered, find_tracked, get_file_by_job,
}
use ai_worker_platform.Common.Sets.{has}

-- Whether a call answers.
abbrev pub answers {ℓ} : {A : Type ℓ} → Answer A → Bool
answers (answered a) = true
answers (refused e) = false

module _ (d : Dates) (inside exists readable : ℕ → Bool) where
  -- The file that is listed as available is the one that can be downloaded, for a path in the
  -- storage root, where what can be read exists: at each moment the download's path is resolved
  -- exactly when the listing says so and the file can be read, and the listing gives a reason
  -- exactly when the file is not available.
  pub resolve_tracked_file_path-get_file_availability :
      (now path : ℕ) (file : JobFile)
      → file.file_path ≡ some path
      → inside path ≡ true
      → (readable path ≡ true → exists path ≡ true)
      → (a : Availability) × (get_file_availability d inside exists readable now file ≡ answered a)
        × (answers (resolve_tracked_file_path d inside exists readable now file)
            ≡ a.available && readable path)
        × (is_some a.unavailable_reason ≡ not a.available)
  unfolding get_file_availability resolve_tracked_file_path
  resolve_tracked_file_path-get_file_availability now path file p i r = (
    availability_at d inside exists readable now file path,
    ground arith,
    ground arith,
    ground arith,
  )

  -- Once the cleanup has marked a file, its download is refused as expired, at any later time.
  pub resolve_tracked_file_path-unavailable :
      (now later : ℕ) (reason : Reason) (file : JobFile)
      → resolve_tracked_file_path d inside exists readable later (unavailable reason now file)
        ≡ refused file_expired
  unfolding resolve_tracked_file_path is_expired
  resolve_tracked_file_path-unavailable now later reason file = refl

  find_tracked_lem :
      (id : ℕ) (files : List Tracked) (t : Tracked)
      → find_tracked id files ≡ some t
      → t.file.id ≡ id
  unfolding find_tracked
  find_tracked_lem id [] t h = cc
  find_tracked_lem id (u ∷ rest) t h = elim (Bool-cases (u.file.id == id)) [
    | inl e ↦ ground (arith, h)
    | inr e ↦ find_tracked_lem id rest t (ground (arith, h))
  ]

  get_file_by_job_lem :
      (jobs : List ℕ) (files : List Tracked) (job_id : ℕ) (file_id : Option ℕ) (t : Tracked)
      → get_file_by_job d inside exists readable jobs files job_id file_id ≡ answered t
      → (has job_id jobs ≡ true) × (t.file.job_id ≡ job_id) × (some t.file.id ≡ file_id)
  unfolding get_file_by_job
  get_file_by_job_lem jobs files job_id none t h = ground arith
  get_file_by_job_lem jobs files job_id (some id) t h = ground (arith, find_tracked_lem id files t)

  resolved_lem :
      (now : ℕ) (file : JobFile) (path : ℕ)
      → resolve_tracked_file_path d inside exists readable now file ≡ answered path
      → (is_expired d inside exists readable now file ≡ false)
        × (unavailable_by_cleanup file ≡ false)
        × (file.file_path ≡ some path)
        × (inside path ≡ true)
        × (readable path ≡ true)
  unfolding resolve_tracked_file_path
  resolved_lem now file path h = elim (Option-cases file.file_path) [
    | inl e ↦ ground (arith, e)
    | inr (p, e) ↦ ground (arith, e)
  ]

  -- The job is there, the file is its own and the one asked for, has not expired and was not
  -- removed, and can be read at its path in the storage root.
  abbrev pub IsOffered : ℕ → List ℕ → ℕ → Option ℕ → Tracked → ℕ → Type 0
  IsOffered now jobs job_id file_id t path =
      (has job_id jobs ≡ true)
      × (t.file.job_id ≡ job_id)
      × (some t.file.id ≡ file_id)
      × (is_expired d inside exists readable now t.file ≡ false)
      × (unavailable_by_cleanup t.file ≡ false)
      × (t.file.file_path ≡ some path)
      × (inside path ≡ true)
      × (readable path ≡ true)

  -- A file that is handed out belongs to the job that was asked for, is the one that was asked for,
  -- has not expired, was not removed, and can be read where it was found in the storage root.
  pub get_download_file_lem :
      (now : ℕ) (jobs : List ℕ) (files : List Tracked) (job_id : ℕ) (file_id : Option ℕ)
      (t : Tracked) (path : ℕ)
      → get_download_file d inside exists readable now jobs files job_id file_id
        ≡ answered (t, path)
      → IsOffered now jobs job_id file_id t path
  unfolding get_download_file
  get_download_file_lem now jobs files job_id file_id t path h =
      let (u, found, later) =
        >>=-eq-answered (get_file_by_job d inside exists readable jobs files job_id file_id) _ h in
      let (p, resolved, same) =
        >>=-eq-answered (resolve_tracked_file_path d inside exists readable now u.file) _ later in
      let file = get_file_by_job_lem jobs files job_id file_id u found in
      let place = resolved_lem now u.file p resolved in
      let e : u ≡ t = ground (arith, same) in
      let q : p ≡ path = ground (arith, same) in
      subst (λ (v : Tracked). IsOffered now jobs job_id file_id v path) e
        (subst (λ (x : ℕ). IsOffered now jobs job_id file_id u x) q
          (file.0, file.1, file.2, place.0, place.1, place.2, place.3, place.4))
