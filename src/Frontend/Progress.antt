-- ===== src/Frontend/Progress.antt =====
-- `downloadProgressPercent` of frontend/src/views/shared/workerRuntime.js. The counts are whole
-- numbers, and the quotient is not rounded before it is multiplied.
use native.Mathlib.Nat.{le-div_iff_mul-le, div-eq_of_lt, div-mul-le_self, div-zero}
use ai_worker_platform.Common.{
  ℕ, Bool, Option, none, some, ◌+◌, ◌*◌, ◌/◌, ◌≤◌, if◌then◌else◌, min, ltb, ◌<◌, ◌≡◌, arith, false,
  suc, true, zero,
}

-- Math.round(exact), of a percentage that the progress names
pub data Rounded : Type 0 where
  below_zero : Rounded
  whole : ℕ → Rounded

pub record JobProgress : Type 0 where
  pub exact : Option Rounded
  pub processed_rows : Option ℕ
  pub total_rows : Option ℕ

-- Math.max(0, Math.min(100, n))
abbrev pub clamp_percent : Rounded → ℕ
clamp_percent below_zero = 0
clamp_percent (whole n) = min 100 n

-- Math.round((processed / total) * 100)
unfoldable pub rounded_share : ℕ → ℕ → ℕ
rounded_share processed total = (200 * processed + total) / (2 * total)

-- The share of the rows, if both counts are known and there are rows.
unfoldable pub percent_of_rows : Option ℕ → Option ℕ → Option ℕ
percent_of_rows none total = none
percent_of_rows (some processed) none = none
percent_of_rows (some processed) (some total) =
    if ltb 0 total then some (min 100 (rounded_share processed total)) else none

-- downloadProgressPercent
unfoldable pub download_progress_percent : Bool → Bool → Option JobProgress → Option ℕ
unfolding percent_of_rows
download_progress_percent job_ready selected progress =
    if job_ready
    then some 100
    else if selected
    then elim progress [
      | none ↦ none
      | some p ↦ elim p.exact [
        | some e ↦ some (clamp_percent e)
        | none ↦ percent_of_rows p.processed_rows p.total_rows
      ]
    ]
    else some 0

-- The progress by the rows alone.
abbrev pub of_rows : ℕ → ℕ → JobProgress
of_rows processed total = record {
  exact = none;
  processed_rows = some processed;
  total_rows = some total;
}

share_full :
    (processed total : ℕ) → 0 < total → total ≤ processed → 100 ≤ rounded_share processed total
unfolding rounded_share
share_full processed total p h =
    let pos : 0 < 2 * total = omega arith in
    (le-div_iff_mul-le {x = 100} {y = 200 * processed + total} pos).1 (omega arith)

share_zero : (total : ℕ) → 0 < total → rounded_share 0 total ≡ 0
unfolding rounded_share
share_zero total p = let less : 200 * 0 + total < 2 * total = omega arith in div-eq_of_lt less

share_mono : (a b total : ℕ) → a ≤ b → rounded_share a total ≤ rounded_share b total
unfolding rounded_share
share_mono a b zero h = omega (arith, div-zero (200 * a + 0))
share_mono a b (suc t) h =
    let pos : 0 < 2 * suc t = omega arith in
    let below : (200 * a + suc t) / (2 * suc t) * (2 * suc t) ≤ 200 * a + suc t =
      div-mul-le_self (200 * a + suc t) (2 * suc t) in
    (le-div_iff_mul-le {x = (200 * a + suc t) / (2 * suc t)} {y = 200 * b + suc t} pos).1
      (omega arith)

rows_le : (processed total : Option ℕ) (n : ℕ) → percent_of_rows processed total ≡ some n → n ≤ 100
unfolding percent_of_rows
rows_le none total n e = cc
rows_le (some processed) none n e = cc
rows_le (some processed) (some total) n e = ground arith

progress_le :
    (p : JobProgress) (n : ℕ)
    → elim p.exact [
      | some e ↦ some (clamp_percent e)
      | none ↦ percent_of_rows p.processed_rows p.total_rows
    ]
      ≡ some n
    → n ≤ 100
progress_le p n e = ground (arith, rows_le p.processed_rows p.total_rows n)

percent_le :
    (ready selected : Bool) (progress : Option JobProgress) (n : ℕ)
    → download_progress_percent ready selected progress ≡ some n
    → n ≤ 100
unfolding download_progress_percent
percent_le true selected progress n e = ground arith
percent_le false true none n e = cc
percent_le false true (some p) n e = progress_le p n e
percent_le false false progress n e = ground arith

-- The progress is shown as at most 100 per cent on every branch; by the rows, it does not fall when
-- more of them are processed, and reads 0 with none of them and 100 with all of them.
pub download_progress_percent_lem :
    (ready selected : Bool) (progress : Option JobProgress) (a b total : ℕ)
    → 0 < total
    → a ≤ b
    → ((n : ℕ) → download_progress_percent ready selected progress ≡ some n → n ≤ 100)
      × (download_progress_percent false true (some (of_rows 0 total)) ≡ some 0)
      × (total ≤ b → download_progress_percent false true (some (of_rows b total)) ≡ some 100)
      × ((low : ℕ) × (high : ℕ) × (download_progress_percent false true (some (of_rows a total))
            ≡ some low)
          × (download_progress_percent false true (some (of_rows b total)) ≡ some high)
          × (low ≤ high))
unfolding download_progress_percent
download_progress_percent_lem ready selected progress a b total p h = (
  percent_le ready selected progress,
  ground (arith, share_zero total p),
  λ all. ground (arith, share_full b total p all),
  (
    min 100 (rounded_share a total),
    min 100 (rounded_share b total),
    ground arith,
    ground arith,
    omega (arith, share_mono a b total h),
  ),
)
