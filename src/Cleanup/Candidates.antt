-- ===== src/Cleanup/Candidates.antt =====
-- Which file records a cleanup considers.
use ai_worker_platform.Cleanup.Plan.{
  is_candidate, JobFile, retention_until, file_available, deleted_at,
}
use ai_worker_platform.Query.Filter.{match_filter, matches_field, Dates, date, boolean, is_there}
use Prim.Native.Nat.{ℕ}
use ai_worker_platform.Common.{◌≡◌, false, ◌<◌, arith, true}
use ai_worker_platform.Query.Meaning.{missing_passes_lte}

-- A file record without an instant of retention is a candidate of every cleanup, however new it is:
-- a missing instant passes the test of the first alternative, so that the age in the second is
-- never read.
pub no_retention_candidate :
    (d : Dates) (retention_days now : ℕ) (file : JobFile)
    → file.logical_deleted ≡ false
    → file.values file_available ≡ boolean true
    → is_there (file.values deleted_at) ≡ false
    → is_there (file.values retention_until) ≡ false
    → is_candidate d retention_days now file ≡ true
unfolding is_candidate match_filter matches_field
no_retention_candidate d retention_days now file k a n r =
    ground (arith, missing_passes_lte d (file.values retention_until) now r, k, a, n)

-- A file record whose retention is a date that has not come is no candidate.
pub retained_no_candidate :
    (d : Dates) (retention_days now until : ℕ) (file : JobFile)
    → file.values retention_until ≡ date until
    → now < until
    → is_candidate d retention_days now file ≡ false
unfolding is_candidate match_filter matches_field
retained_no_candidate d retention_days now until file r h =
    ground (arith, r, h, d.time_date until, d.time_date now)
