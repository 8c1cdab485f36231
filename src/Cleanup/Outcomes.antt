-- ===== src/Cleanup/Outcomes.antt =====
-- What becomes of the candidates of a cleanup.
use ai_worker_platform.Common.{
  [], ◌∷◌, none, some, ℕ, Bool, List, ◌+◌, ◌≡◌, Option-cases, arith, true, false, inl, inr, ◌⊎◌,
  ◌==◌, eqb→eq, eqb_refl, Bool-cases, refl, filter, ◌∙◌, ◌++◌,
}
use ai_worker_platform.Cleanup.Plan.{
  Plan, JobFile, Reason, Classification, skipped, file_available, deletable, job_file_missing,
  classify_candidate, is_candidate, plan_files, World, bytes_of, get_cleanup_plan, plan_file,
  empty_plan, Skip,
}
use ai_worker_platform.Cleanup.Run.{
  Progress, clean_candidate, clean_candidates, mark_file_unavailable, with_deletion, clean_file,
  find_file, run_cleanup, with_removal,
}
use ai_worker_platform.Common.Sets.{has, has-push, bit, count, count-push}
use ai_worker_platform.Query.Filter.{boolean, Dates, match_filter}

abbrev pub skipped_ids : List (ℕ × Skip) → List ℕ
skipped_ids [] = []
skipped_ids ((id, reason) ∷ rest) = id ∷ skipped_ids rest

-- How many outcomes a plan records for one file.
abbrev pub outcomes : ℕ → Plan → ℕ
outcomes a plan = count a (skipped_ids plan.skips) + count a plan.deleted + count a plan.errors

skipped_ids-push :
    (a id : ℕ) (reason : Skip) (skips : List (ℕ × Skip))
    → count a (skipped_ids (skips ++ ((id, reason) ∷ [])))
      ≡ count a (skipped_ids skips) + bit (id == a)
skipped_ids-push a id reason [] = omega arith
skipped_ids-push a id reason ((i, r) ∷ rest) = omega (arith, skipped_ids-push a id reason rest)

clean_file-outcomes :
    (a : ℕ) (rm_fails : ℕ → Bool) (now id : ℕ) (file : JobFile) (c : Classification) (p : Progress)
    → outcomes a (clean_file rm_fails now id file c p).plan ≡ outcomes a p.plan + bit (id == a)
clean_file-outcomes a rm_fails now id file (skipped reason) p =
    ground (arith, skipped_ids-push a id reason p.plan.skips)
clean_file-outcomes a rm_fails now id file (deletable path none) p =
    ground (arith, count-push a id p.plan.deleted)
clean_file-outcomes a rm_fails now id file (deletable path (some size)) p =
    ground (arith, count-push a id p.plan.deleted, count-push a id p.plan.errors)

clean_candidate-outcomes :
    (a : ℕ) (rm_fails : ℕ → Bool) (now id : ℕ) (p : Progress)
    → outcomes a (clean_candidate rm_fails now id p).plan ≡ outcomes a p.plan + bit (id == a)
unfolding clean_candidate
clean_candidate-outcomes a rm_fails now id p = elim (Option-cases (find_file id p.world.files)) [
  | inl e ↦
      rw (e, clean_candidate) (ground (arith, skipped_ids-push a id job_file_missing p.plan.skips))
  | inr (file, e) ↦
      rw (e, clean_candidate)
        (clean_file-outcomes a rm_fails now id file (classify_candidate p.world file) p)
]

clean_candidates-outcomes :
    (a : ℕ) (rm_fails : ℕ → Bool) (now : ℕ) (ids : List ℕ) (p : Progress)
    → outcomes a (clean_candidates rm_fails now ids p).plan ≡ outcomes a p.plan + count a ids
unfolding clean_candidates
clean_candidates-outcomes a rm_fails now [] p = omega arith
clean_candidates-outcomes a rm_fails now (id ∷ ids) p = omega (
  arith,
  clean_candidate-outcomes a rm_fails now id p,
  clean_candidates-outcomes a rm_fails now ids (clean_candidate rm_fails now id p),
)

-- A record that stands among the deleted is marked: what is found under its identifier is deleted
-- logically, or not available.
abbrev AreMarked : Progress → Type 0
AreMarked p =
    (id : ℕ) (file : JobFile)
    → has id p.plan.deleted ≡ true
    → find_file id p.world.files ≡ some file
    → file.logical_deleted ≡ false
    → file.values file_available ≡ boolean false

mark_file_unavailable-found :
    (a id now : ℕ) (reason : Reason) (files : List JobFile) (file : JobFile)
    → find_file a (mark_file_unavailable id reason now files) ≡ some file
    → file.logical_deleted ≡ false
    → (file.values file_available ≡ boolean false)
      ⊎ (((id == a) ≡ false) × (find_file a files ≡ some file))
unfolding mark_file_unavailable
mark_file_unavailable-found a id now reason [] file h l = cc
mark_file_unavailable-found a id now reason (f ∷ files) file h l = ground (
  arith,
  mark_file_unavailable-found a id now reason files file,
  eqb→eq f.id id,
  eqb→eq f.id a,
  eqb→eq id a,
  eqb_refl a,
)

with_deletion-AreMarked :
    (id now : ℕ) (reason : Reason) (p : Progress)
    → AreMarked p
    → AreMarked (with_deletion id reason now p)
with_deletion-AreMarked id now reason p m a file h f l =
    elim (mark_file_unavailable-found a id now reason p.world.files file f l) [
      | inl marked ↦ marked
      | inr (other, found) ↦
          m a file (ground (arith, other, h, has-push a id p.plan.deleted)) found l
    ]

clean_file-AreMarked :
    (rm_fails : ℕ → Bool) (now id : ℕ) (file : JobFile) (c : Classification) (p : Progress)
    → AreMarked p
    → AreMarked (clean_file rm_fails now id file c p)
clean_file-AreMarked rm_fails now id file (skipped reason) p m = m
clean_file-AreMarked rm_fails now id file (deletable path none) p m =
    with_deletion-AreMarked id now _ p m
clean_file-AreMarked rm_fails now id file (deletable path (some size)) p m =
    elim (Bool-cases (rm_fails path)) [
      | inl f ↦ rw f m
      | inr f ↦
          rw f
            (with_deletion-AreMarked id now _ (with_removal path (bytes_of (some size) file) p) m)
    ]

clean_candidate-AreMarked :
    (rm_fails : ℕ → Bool) (now id : ℕ) (p : Progress)
    → AreMarked p
    → AreMarked (clean_candidate rm_fails now id p)
unfolding clean_candidate
clean_candidate-AreMarked rm_fails now id p m = elim (Option-cases (find_file id p.world.files)) [
  | inl e ↦ rw (e, clean_candidate) m
  | inr (file, e) ↦
      rw (e, clean_candidate)
        (clean_file-AreMarked rm_fails now id file (classify_candidate p.world file) p m)
]

clean_candidates-AreMarked :
    (rm_fails : ℕ → Bool) (now : ℕ) (ids : List ℕ) (p : Progress)
    → AreMarked p
    → AreMarked (clean_candidates rm_fails now ids p)
unfolding clean_candidates
clean_candidates-AreMarked rm_fails now [] p m = m
clean_candidates-AreMarked rm_fails now (id ∷ ids) p m =
    clean_candidates-AreMarked rm_fails now ids (clean_candidate rm_fails now id p)
      (clean_candidate-AreMarked rm_fails now id p m)

plan_file-none :
    (file : JobFile) (c : Classification) (plan : Plan)
    → ((plan_file file c plan).deleted ≡ plan.deleted)
      × ((plan_file file c plan).errors ≡ plan.errors)
plan_file-none file (skipped reason) plan = (refl, refl)
plan_file-none file (deletable path size) plan = (refl, refl)

plan_files-none :
    (w : World) (files : List JobFile) (plan : Plan)
    → ((plan_files w files plan).deleted ≡ plan.deleted)
      × ((plan_files w files plan).errors ≡ plan.errors)
unfolding plan_files
plan_files-none w [] plan = (refl, refl)
plan_files-none w (file ∷ rest) plan =
    let next = plan_file file (classify_candidate w file) plan in
    let (deleted, errors) = plan_files-none w rest next in
    let (deleted', errors') = plan_file-none file (classify_candidate w file) plan in
    (deleted ∙ deleted', errors ∙ errors')

planned_none :
    (d : Dates) (sort : List JobFile → List JobFile) (retention_days now : ℕ) (w : World)
    → let plan = get_cleanup_plan d sort retention_days now w in
      (plan.deleted ≡ []) × (plan.errors ≡ [])
unfolding get_cleanup_plan
planned_none d sort retention_days now w =
    plan_files-none w (sort (filter (is_candidate d retention_days now) w.files)) empty_plan

deleted_no_candidate :
    (d : Dates) (retention_days now : ℕ) (file : JobFile)
    → file.logical_deleted ≡ true
    → is_candidate d retention_days now file ≡ false
unfolding is_candidate match_filter
deleted_no_candidate d retention_days now file h = ground (arith, h)

unavailable_no_candidate :
    (d : Dates) (retention_days now : ℕ) (file : JobFile)
    → file.values file_available ≡ boolean false
    → is_candidate d retention_days now file ≡ false
unfolding is_candidate match_filter
unavailable_no_candidate d retention_days now file h = ground (arith, h)

-- A cleanup that is not a dry run records for every file identifier, among those it deleted, skipped
-- or failed to delete, as many outcomes as its plan has skips and candidates of that identifier: each
-- candidate has its own outcome, and no other file has one. A record that it reports as deleted is
-- no candidate of any later cleanup.
pub candidates_have_outcomes :
    (d : Dates) (sort : List JobFile → List JobFile) (rm_fails : ℕ → Bool) (retention_days now : ℕ)
    (w : World)
    → let plan = get_cleanup_plan d sort retention_days now w in
      let done = run_cleanup d sort rm_fails retention_days false now w in
      ((id : ℕ)
        → outcomes id done.plan ≡ count id (skipped_ids plan.skips) + count id plan.candidates)
      × ((id : ℕ) (file : JobFile) (later_days later : ℕ)
          → has id done.plan.deleted ≡ true
          → find_file id done.world.files ≡ some file
          → is_candidate d later_days later file ≡ false)
unfolding run_cleanup
candidates_have_outcomes d sort rm_fails retention_days now w =
    let plan = get_cleanup_plan d sort retention_days now w in
    let begun : Progress = record { world = w; plan = plan } in
    let (no_deleted, no_errors) = planned_none d sort retention_days now w in
    let marked : AreMarked begun = λ id file h f l. absurd (ground (arith, no_deleted, h)) in
    (
      λ id. ground (
        arith,
        clean_candidates-outcomes id rm_fails now plan.candidates begun,
        no_deleted,
        no_errors,
      ),
      λ id file later_days later h f. elim (Bool-cases file.logical_deleted) [
        | inl gone ↦ deleted_no_candidate d later_days later file gone
        | inr kept ↦
            unavailable_no_candidate d later_days later file (
              clean_candidates-AreMarked rm_fails now plan.candidates begun marked id file h f kept)
      ],
    )
