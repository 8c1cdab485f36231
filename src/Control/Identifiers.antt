-- ===== src/Control/Identifiers.antt =====
-- reserveUniqueJobId of backend/src/utils/jobIdGenerator.js, for the jobs of one day: the identifier
-- of a job is its sequence number. It runs under the reservation of Control/Reservation.antt.
use Prim.Native.Nat.{ℕ, suc}
use ai_worker_platform.Common.{
  Option, Bool, List, none, ◌+◌, ◌≡◌, ◌≤◌, arith, some, ◌<◌, ◌||◌, false, if◌then◌else◌, true, zero,
  ◌==◌, Bool-cases, inl, inr, subst, eqb→eq, eqb_refl, refl,
}
use ai_worker_platform.Common.Sets.{has, add, has-add}

-- The first number to try. `latest` is the job found last in order, with the number that its
-- identifier ends in, if it is a number.
abbrev pub next_sequence : Option (Option ℕ) → ℕ
next_sequence (some (some last)) = last + 1
next_sequence _ = 1

-- `reservedJobIds.has(id)`, or `await Job.exists`
abbrev pub is_taken : (ℕ → Bool) → List ℕ → ℕ → Bool
is_taken exists reserved sequence = has sequence reserved || exists sequence

-- The loop over the candidates, as many as are left to try.
unfoldable pub first_free : (ℕ → Bool) → List ℕ → ℕ → ℕ → Option ℕ
first_free exists reserved zero sequence = none
first_free exists reserved (suc tries) sequence =
    let later = first_free exists reserved tries (sequence + 1) in
    if is_taken exists reserved sequence then later else some sequence

abbrev pub max_tries : ℕ
max_tries = 1000

-- `reservedJobIds.add(id)`
abbrev pub with_identifier : List ℕ → Option ℕ → Option (ℕ × List ℕ)
with_identifier reserved none = none
with_identifier reserved (some id) = some (id, add id reserved)

-- reserveUniqueJobId; `none` is its error
unfoldable pub reserve_unique_job_id : (ℕ → Bool) → Option (Option ℕ) → List ℕ → Option (ℕ × List ℕ)
unfolding first_free
reserve_unique_job_id exists latest reserved =
    with_identifier reserved (first_free exists reserved max_tries (next_sequence latest))

-- The first free number of a range, or none if all are taken.
abbrev pub FoundIn : (ℕ → Bool) → List ℕ → ℕ → ℕ → Option ℕ → Type 0
FoundIn exists reserved from to none =
    (m : ℕ) → from ≤ m → m < to → is_taken exists reserved m ≡ true
FoundIn exists reserved from to (some n) =
    (is_taken exists reserved n ≡ false)
    × (from ≤ n)
    × (n < to)
    × ((m : ℕ) → from ≤ m → m < n → is_taken exists reserved m ≡ true)

-- All numbers of a range are taken if the first is and the others are.
taken_from :
    (exists : ℕ → Bool) (reserved : List ℕ) (from to : ℕ)
    → is_taken exists reserved from ≡ true
    → ((m : ℕ) → from + 1 ≤ m → m < to → is_taken exists reserved m ≡ true)
    → (m : ℕ) → from ≤ m
    → m < to
    → is_taken exists reserved m ≡ true
taken_from exists reserved from to h rest m l u = elim (Bool-cases (from == m)) [
  | inl same ↦ subst (λ n. is_taken exists reserved n ≡ true) (eqb→eq from m same) h
  | inr other ↦ rest m (ground (arith, other, l, eqb_refl m)) u
]

FoundIn-step :
    (exists : ℕ → Bool) (reserved : List ℕ) (from to : ℕ) (found : Option ℕ)
    → is_taken exists reserved from ≡ true
    → FoundIn exists reserved (from + 1) to found
    → FoundIn exists reserved from to found
FoundIn-step exists reserved from to none h f = taken_from exists reserved from to h f
FoundIn-step exists reserved from to (some n) h (free, l, u, least) =
    (free, omega (arith, l), u, taken_from exists reserved from n h least)

first_free-FoundIn :
    (exists : ℕ → Bool) (reserved : List ℕ) (tries sequence : ℕ)
    → FoundIn exists reserved sequence
        (sequence + tries)
        (first_free exists reserved tries sequence)
unfolding first_free
first_free-FoundIn exists reserved zero sequence = λ m h l. absurd (omega (arith, h, l))
first_free-FoundIn exists reserved (suc tries) sequence =
    let end_same : sequence + 1 + tries ≡ sequence + suc tries = omega arith in
    elim (Bool-cases (is_taken exists reserved sequence)) [
      | inl taken ↦
          rw (taken, first_free)
            (FoundIn-step exists reserved sequence (sequence + suc tries)
              (first_free exists reserved tries (sequence + 1)) taken
              (subst
                (λ to.
                  FoundIn exists reserved (sequence + 1) to
                    (first_free exists reserved tries (sequence + 1)))
                end_same (first_free-FoundIn exists reserved tries (sequence + 1))))
      | inr free ↦
          rw (free, first_free)
            (free, omega arith, omega arith, λ m l u. absurd (omega (arith, l, u)))
    ]

with_identifier-none :
    (reserved : List ℕ) (found : Option ℕ) → with_identifier reserved found ≡ none → found ≡ none
with_identifier-none reserved none h = refl
with_identifier-none reserved (some n) h = cc

with_identifier-some :
    (reserved reserved' : List ℕ) (found : Option ℕ) (id : ℕ)
    → with_identifier reserved found ≡ some (id, reserved')
    → (found ≡ some id) × (reserved' ≡ add id reserved)
with_identifier-some reserved reserved' none id h = cc
with_identifier-some reserved reserved' (some n) id h = ground (arith, h)

added : (id : ℕ) (reserved : List ℕ) → has id (add id reserved) ≡ true
added id reserved = ground (arith, has-add id id reserved, eqb_refl id)

unchanged :
    (m id : ℕ) (reserved : List ℕ) → (id == m) ≡ false → has m (add id reserved) ≡ has m reserved
unchanged m id reserved other = ground (arith, other, has-add m id reserved)

-- A job identifier that is reserved was neither reserved nor that of a job, and is reserved from
-- then on; it is the least such number from the first one tried, and no other reservation changes.
-- The reservation fails only if a thousand numbers from there are all taken.
pub reserve_unique_job_id-fresh :
    (exists : ℕ → Bool) (latest : Option (Option ℕ)) (reserved : List ℕ)
    → ((id : ℕ) (reserved' : List ℕ)
        → reserve_unique_job_id exists latest reserved ≡ some (id, reserved')
        → (is_taken exists reserved id ≡ false)
          × (has id reserved' ≡ true)
          × ((m : ℕ) → (id == m) ≡ false → has m reserved' ≡ has m reserved)
          × ((m : ℕ) → next_sequence latest ≤ m → m < id → is_taken exists reserved m ≡ true))
      × (reserve_unique_job_id exists latest reserved ≡ none
          → (m : ℕ) → next_sequence latest ≤ m
          → m < next_sequence latest + 1000
          → is_taken exists reserved m ≡ true)
unfolding reserve_unique_job_id
reserve_unique_job_id-fresh exists latest reserved =
    let start = next_sequence latest in
    let found = first_free-FoundIn exists reserved max_tries start in
    (
      λ id reserved' h.
          let (e, made) =
            with_identifier-some reserved reserved' (first_free exists reserved max_tries start) id
              h in
          let (free, from, to, least) =
            subst (FoundIn exists reserved start (start + 1000)) e found in
          (
            free,
            rw made (added id reserved),
            λ m other. rw made (unchanged m id reserved other),
            least,
          ),
      λ h.
          subst (FoundIn exists reserved start (start + 1000))
            (with_identifier-none reserved (first_free exists reserved max_tries start) h) found,
    )
