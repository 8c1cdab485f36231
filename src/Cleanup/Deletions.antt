-- ===== src/Cleanup/Deletions.antt =====
-- What a cleanup deletes, and what it leaves.
use ai_worker_platform.Common.{
  [], ◌∷◌, ℕ, List, All, Option, Bool, ◌≡◌, some, false, true, Bool-cases, arith, Option-cases,
  ◌==◌, inl, refl, subst, ◌&&◌, inr, not, sym, ◌∙◌, none, ap, eqb→eq,
}
use ai_worker_platform.Cleanup.Plan.{
  JobFile, classify_candidate, Reason, World, deletable, find_job, Classification, skipped,
  get_cleanup_plan,
}
use ai_worker_platform.Cleanup.Run.{
  mark_file_unavailable, find_file, Progress, clean_candidate, clean_candidates, run_cleanup,
  clean_file,
}
use ai_worker_platform.Job.Document.{JobDoc}
use ai_worker_platform.Common.Maps.{lookup, lookup-delete}
use ai_worker_platform.Query.Filter.{Dates}
use ai_worker_platform.Job.Status.{is_terminal}

abbrev pub has_ended : ℕ → List (ℕ × JobDoc) → Bool
has_ended job_id jobs = elim (find_job job_id jobs) [
  | none ↦ false
  | some job ↦ is_terminal job.status
]

-- Every record of the path is that of a job that has not ended, or of no job.
abbrev pub IsSpared : ℕ → List (ℕ × JobDoc) → JobFile → Type 0
IsSpared path jobs file = file.file_path ≡ some path → has_ended file.job_id jobs ≡ false

classify_candidate-deletable :
    (w : World) (file : JobFile) (path : ℕ) (size : Option ℕ)
    → classify_candidate w file ≡ deletable path size
    → (file.file_path ≡ some path) × (has_ended file.job_id w.jobs ≡ true)
unfolding classify_candidate
classify_candidate-deletable w file path size h = ground (arith, h)

find_file-All :
    (P : JobFile → Type 0) (id : ℕ) (files : List JobFile) (file : JobFile)
    → All P files
    → find_file id files ≡ some file
    → P file
find_file-All P id [] file a h = cc
find_file-All P id (f ∷ files) file a h = elim (Bool-cases (f.id == id)) [
  | inl e ↦ subst P (ground (arith, e, h)) a.0
  | inr e ↦ find_file-All P id files file a.1 (ground (arith, e, h))
]

mark_file_unavailable-IsSpared :
    (path id now : ℕ) (reason : Reason) (jobs : List (ℕ × JobDoc)) (files : List JobFile)
    → All (IsSpared path jobs) files
    → All (IsSpared path jobs) (mark_file_unavailable id reason now files)
unfolding mark_file_unavailable
mark_file_unavailable-IsSpared path id now reason jobs [] a = tt
mark_file_unavailable-IsSpared path id now reason jobs (file ∷ files) a =
    let later = mark_file_unavailable-IsSpared path id now reason jobs files a.1 in
    elim (Bool-cases ((file.id == id) && not file.logical_deleted)) [
      | inl e ↦ rw e (a.0, a.1)
      | inr e ↦ rw e (a.0, later)
    ]

-- What stays of a path through one candidate.
abbrev Stays : ℕ → Progress → Progress → Type 0
Stays path p p' =
    (lookup path p'.world.disk ≡ lookup path p.world.disk)
    × (p'.world.jobs ≡ p.world.jobs)
    × All (IsSpared path p.world.jobs) p'.world.files

clean_file-Stays :
    (rm_fails : ℕ → Bool) (now path id : ℕ) (file : JobFile) (c : Classification) (p : Progress)
    → classify_candidate p.world file ≡ c
    → IsSpared path p.world.jobs file
    → All (IsSpared path p.world.jobs) p.world.files
    → Stays path p (clean_file rm_fails now id file c p)
clean_file-Stays rm_fails now path id file (skipped reason) p e s a = (refl, refl, a)
clean_file-Stays rm_fails now path id file (deletable q none) p e s a =
    (refl, refl, mark_file_unavailable-IsSpared path id now _ p.world.jobs p.world.files a)
clean_file-Stays rm_fails now path id file (deletable q (some size)) p e s a =
    let (named, ended) = classify_candidate-deletable p.world file q (some size) e in
    let other : (q == path) ≡ false = elim (Bool-cases (q == path)) [
      | inl same ↦ absurd (ground (arith, ended, s (named ∙ ap some (eqb→eq q path same))))
      | inr differs ↦ differs
    ] in
    elim (Bool-cases (rm_fails q)) [
      | inl f ↦ rw f (refl, refl, a)
      | inr f ↦ rw f (
        rw (lookup-delete, other) refl,
        refl,
        mark_file_unavailable-IsSpared path id now _ p.world.jobs p.world.files a,
      )
    ]

clean_candidate-Stays :
    (rm_fails : ℕ → Bool) (now path id : ℕ) (p : Progress)
    → All (IsSpared path p.world.jobs) p.world.files
    → Stays path p (clean_candidate rm_fails now id p)
unfolding clean_candidate
clean_candidate-Stays rm_fails now path id p a = elim (Option-cases (find_file id p.world.files)) [
  | inl e ↦ rw (e, clean_candidate) (refl, refl, a)
  | inr (file, e) ↦
      rw (e, clean_candidate)
        (clean_file-Stays rm_fails now path id file (classify_candidate p.world file) p refl
          (find_file-All (IsSpared path p.world.jobs) id p.world.files file a e) a)
]

clean_candidates-Stays :
    (rm_fails : ℕ → Bool) (now path : ℕ) (ids : List ℕ) (p : Progress)
    → All (IsSpared path p.world.jobs) p.world.files
    → lookup path (clean_candidates rm_fails now ids p).world.disk ≡ lookup path p.world.disk
unfolding clean_candidates
clean_candidates-Stays rm_fails now path [] p a = refl
clean_candidates-Stays rm_fails now path (id ∷ ids) p a =
    let p' = clean_candidate rm_fails now id p in
    let (kept, jobs, spared) = clean_candidate-Stays rm_fails now path id p a in
    clean_candidates-Stays rm_fails now path ids p'
      (subst (λ j. All (IsSpared path j) p'.world.files) (sym jobs) spared)
    ∙ kept

-- A cleanup deletes no file that belongs to a job which has not ended: if every record of a path is
-- that of such a job, or of a job that is missing, the path holds after the cleanup what
-- it held before. A dry run deletes nothing at all.
pub unended_files_stay :
    (d : Dates) (sort : List JobFile → List JobFile) (rm_fails : ℕ → Bool)
    (retention_days now path : ℕ) (dry_run : Bool) (w : World)
    → All (IsSpared path w.jobs) w.files
    → (lookup path (run_cleanup d sort rm_fails retention_days dry_run now w).world.disk
        ≡ lookup path w.disk)
      × (run_cleanup d sort rm_fails retention_days true now w).world ≡ w
unfolding run_cleanup
unended_files_stay d sort rm_fails retention_days now path true w a = (refl, refl)
unended_files_stay d sort rm_fails retention_days now path false w a =
    let plan = get_cleanup_plan d sort retention_days now w in
    (
      clean_candidates-Stays rm_fails now path plan.candidates (record { world = w; plan = plan })
          a,
      refl,
    )
