-- ===== src/Control/Reservation.antt =====
-- withIdempotencyReservation of backend/src/services/jobControlService.js and
-- withJobIdReservation of backend/src/utils/jobIdGenerator.js: one operation at a time for each
-- key. Keys and requests are numbers.
use ai_worker_platform.Common.{
  ◌≡◌, refl, ◌+◌, [], ◌∷◌, if◌then◌else◌, List, ℕ, Bool, arith, true, ◌==◌, ◌≤◌, false, ◌&&◌,
  eqb→eq, ◌||◌,
}
use ai_worker_platform.Common.Sets.{bit, discard, has, has-discard, has-push, push}

-- `idempotencyReservations` or `jobIdReservations`, with the operations that run.
pub record Reservations : Type 0 where
  pub reserved : List ℕ
  pub running : List (ℕ × ℕ)

abbrev pub no_reservations : Reservations
no_reservations = record { reserved = []; running = [] }

-- The test and what follows it up to `await operation()`, with no `await` in between. A request
-- that finds its key reserved waits, and comes here again.
unfoldable pub reserve : ℕ → ℕ → Reservations → Reservations
reserve request key r =
    if has key r.reserved
    then r
    else record { reserved = push key r.reserved; running = (request, key) ∷ r.running }

abbrev pub stop : ℕ → ℕ → List (ℕ × ℕ) → List (ℕ × ℕ)
stop request key [] = []
stop request key ((q, k) ∷ rest) =
    let others = stop request key rest in
    if (q == request) && (k == key) then rest else (q, k) ∷ others

abbrev pub is_running : ℕ → ℕ → List (ℕ × ℕ) → Bool
is_running request key [] = false
is_running request key ((q, k) ∷ rest) =
    ((q == request) && (k == key)) || is_running request key rest

-- The `finally` block, at the end of an operation that runs.
unfoldable pub release : ℕ → ℕ → Reservations → Reservations
release request key r =
    if is_running request key r.running
    then record { reserved = discard key r.reserved; running = stop request key r.running }
    else r

pub data Event : Type 0 where
  arrives ends : ℕ → ℕ → Event

unfoldable pub run : List Event → Reservations → Reservations
unfolding reserve release
run [] r = r
run (arrives request key ∷ rest) r = run rest (reserve request key r)
run (ends request key ∷ rest) r = run rest (release request key r)

-- How many operations run under a key.
abbrev pub running_under : ℕ → List (ℕ × ℕ) → ℕ
running_under key [] = 0
running_under key ((q, k) ∷ rest) = bit (k == key) + running_under key rest

running_under-stop :
    (a request key : ℕ) (xs : List (ℕ × ℕ))
    → is_running request key xs ≡ true
    → running_under a (stop request key xs) + bit (key == a) ≡ running_under a xs
running_under-stop a request key [] h = cc
running_under-stop a request key ((q, k) ∷ rest) h =
    ground (arith, running_under-stop a request key rest)

-- A key is reserved exactly while one operation runs under it.
abbrev IsExclusive : ℕ → Reservations → Type 0
IsExclusive a r = running_under a r.running ≡ bit (has a r.reserved)

reserve-IsExclusive :
    (a request key : ℕ) (r : Reservations) → IsExclusive a r → IsExclusive a (reserve request key r)
unfolding reserve
reserve-IsExclusive a request key r h = ground (arith, has-push a key r.reserved, eqb→eq key a)

release-IsExclusive :
    (a request key : ℕ) (r : Reservations) → IsExclusive a r → IsExclusive a (release request key r)
unfolding release
release-IsExclusive a request key r h =
    ground (
      arith,
      has-discard a key r.reserved,
      running_under-stop a request key r.running,
      eqb→eq key a,
    )

run-IsExclusive :
    (a : ℕ) (events : List Event) (r : Reservations)
    → IsExclusive a r
    → IsExclusive a (run events r)
unfolding run
run-IsExclusive a [] r h = h
run-IsExclusive a (arrives request key ∷ rest) r h =
    run-IsExclusive a rest (reserve request key r) (reserve-IsExclusive a request key r h)
run-IsExclusive a (ends request key ∷ rest) r h =
    run-IsExclusive a rest (release request key r) (release-IsExclusive a request key r h)

-- However requests arrive and end, no two operations run under one key, and a key is reserved
-- exactly while an operation runs under it.
pub one_operation :
    (key : ℕ) (events : List Event)
    → let r = run events no_reservations in
      (running_under key r.running ≤ 1) × (running_under key r.running ≡ bit (has key r.reserved))
one_operation key events = let h = run-IsExclusive key events no_reservations refl in ground arith
