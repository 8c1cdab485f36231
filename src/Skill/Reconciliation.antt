-- ===== src/Skill/Reconciliation.antt =====
-- validateReconciliation of backend/src/skills/genericSkillRunner.js. A field that is not a
-- non-negative integer is `none`.
use ai_worker_platform.Common.{
  ◌>>=◌, ◌>>=◌, ◌+◌, [], ◌∷◌, none, some, if◌then◌else◌, Bool, List, Option, ℕ, not, true, false,
  length, ◌==◌, ◌&&◌, ltb,
}
use ai_worker_platform.Control.Text.{Text, is_blank, trim}

-- RESULT_STATUSES
pub data ResultStatus : Type 0 where
  succeeded succeeded_with_warning failed cancelled : ResultStatus

pub record Disposition : Type 0 where
  pub site_code : Text
  pub disposition : Text

-- reconciliation.siteDispositions
pub data Dispositions : Type 0 where
  undefined not_array : Dispositions
  array : List Disposition → Dispositions

pub record Reconciliation : Type 0 where
  pub requested_count : Option ℕ
  pub generated_count : Option ℕ
  pub review_required_count : Option ℕ
  pub approved_ignored_count : Option ℕ
  pub duplicate_blocked_count : Option ℕ
  pub failed_count : Option ℕ
  pub unaccounted_count : Option ℕ
  pub site_dispositions : Dispositions

-- The seven counts, once they have been checked.
pub record Counts : Type 0 where
  pub requested : ℕ
  pub generated : ℕ
  pub review_required : ℕ
  pub approved_ignored : ℕ
  pub duplicate_blocked : ℕ
  pub failed : ℕ
  pub unaccounted : ℕ

-- The errors, in the order of the checks; the last two name the index of the site.
pub data Invalid : Type 0 where
  not_a_count inconsistent unclean_success unaccounted_success : Invalid
  dispositions_not_array dispositions_incomplete : Invalid
  site_code_required disposition_required : ℕ → Invalid

-- The loop over the fields.
unfoldable pub counts_of : Reconciliation → Option Counts
counts_of r = do
  requested ← r.requested_count
  generated ← r.generated_count
  review ← r.review_required_count
  ignored ← r.approved_ignored_count
  duplicate ← r.duplicate_blocked_count
  lost ← r.failed_count
  unaccounted ← r.unaccounted_count
  some (record {
    requested = requested;
    generated = generated;
    review_required = review;
    approved_ignored = ignored;
    duplicate_blocked = duplicate;
    failed = lost;
    unaccounted = unaccounted;
  })

abbrev pub warning_dispositions : Counts → ℕ
warning_dispositions c =
    c.review_required + c.approved_ignored + c.duplicate_blocked + c.failed + c.unaccounted

abbrev pub accounted : Counts → ℕ
accounted c = c.generated + warning_dispositions c

abbrev pub is_clean : ResultStatus → Bool
is_clean succeeded = true
is_clean _ = false

abbrev pub is_success : ResultStatus → Bool
is_success succeeded = true
is_success succeeded_with_warning = true
is_success _ = false

-- The loop over the site dispositions, from an index on.
unfoldable pub check_sites : ℕ → List Disposition → Option Invalid
check_sites index [] = none
check_sites index (item ∷ rest) =
    let later = check_sites (index + 1) rest in
    if is_blank (trim item.site_code)
    then some (site_code_required index)
    else if is_blank (trim item.disposition)
    then some (disposition_required index)
    else later

unfoldable pub check_dispositions : Counts → Dispositions → Option Invalid
unfolding check_sites
check_dispositions c undefined = none
check_dispositions c not_array = some dispositions_not_array
check_dispositions c (array items) =
    if not (length items == c.requested) then some dispositions_incomplete else check_sites 0 items

unfoldable pub check_counts : ResultStatus → Counts → Option Invalid
check_counts status c =
    if not (accounted c == c.requested)
    then some inconsistent
    else if is_clean status && ltb 0 (warning_dispositions c)
    then some unclean_success
    else if is_success status && ltb 0 c.unaccounted
    then some unaccounted_success
    else none

-- validateReconciliation; `none` if it throws nothing
unfoldable pub validate_reconciliation : Option Reconciliation → ResultStatus → Option Invalid
unfolding counts_of check_counts check_dispositions
validate_reconciliation none status = none
validate_reconciliation (some r) status = elim (counts_of r) [
  | none ↦ some not_a_count
  | some c ↦ elim (check_counts status c) [
    | some error ↦ some error
    | none ↦ check_dispositions c r.site_dispositions
  ]
]
