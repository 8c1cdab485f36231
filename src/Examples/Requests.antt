-- ===== src/Examples/Requests.antt =====
-- Cancellations, request keys and reservations.
use ai_worker_platform.Job.Status.{Status}
use ai_worker_platform.Examples.Data.{generating_job}
use ai_worker_platform.Common.{List, ◌≡◌, false, some, true, ◌∷◌, [], none, ◌++◌, refl, ◌≤◌}
use ai_worker_platform.Control.CancelJob.{
  Request, cancel_job, complete, refused, saved, orphan_resolved, skill_cancellation_unsupported,
  orphan_message, note_request,
}
use ai_worker_platform.Queue.Control.{CancelResult}
use ai_worker_platform.Job.Document.{JobDoc, ReasonCode}
use ai_worker_platform.Control.Reservation.{
  running_under, Event, run, arrives, no_reservations, ends, one_operation,
}
use ai_worker_platform.Control.Text.{Text, trim, is_key_char, is_space}
use ai_worker_platform.Control.Keys.{
  build_idempotency_reservation_key, normalize_idempotency_key, normalize_key, normalize_worker_id,
  mw_pr, separator, has_no_colon,
}
use ai_worker_platform.Control.Outcomes.{cancel_job-saved}

abbrev request : Request
request = record {
  requested_at = 3000;
  requested_by = some "admin";
  reason = record { reason_code = ReasonCode.requested_by_user; reason_text = none };
}

-- The queue found no runtime that holds the job.
abbrev nowhere : CancelResult
nowhere = record {
  cancelled = false;
  running = false;
  already_requested = false;
  unsupported = false;
  runtime = none;
}

abbrev too_late : CancelResult
too_late = record nowhere { running = true; unsupported = true }

abbrev orphan : JobDoc
orphan =
    complete request 3001 Status.cancelled orphan_message (note_request request (generating_job 1))

cancels_orphan : cancel_job request 3001 nowhere (generating_job 1) ≡ saved orphan orphan_resolved
unfolding cancel_job
cancels_orphan = refl

cancel_job-saved_example : orphan.status ≡ Status.cancelled
cancel_job-saved_example =
    (cancel_job-saved request 3001 nowhere (generating_job 1) orphan orphan_resolved
      cancels_orphan).2

refuses_too_late :
    cancel_job request 3001 too_late (generating_job 1) ≡ refused skill_cancellation_unsupported
unfolding cancel_job
refuses_too_late = refl

-- Two requests with one key arrive, and the first ends.
abbrev arrivals : List Event
arrivals = arrives 1 5 ∷ arrives 2 5 ∷ arrives 3 6 ∷ ends 1 5 ∷ arrives 2 5 ∷ []

one_operation_example : running_under 5 (run arrivals no_reservations).running ≤ 1
one_operation_example = (one_operation 5 arrivals).0

-- " key-0001 "
abbrev spaced : Text
spaced = b' ' ∷ b'k' ∷ b'e' ∷ b'y' ∷ b'-' ∷ b'0' ∷ b'0' ∷ b'0' ∷ b'1' ∷ b' ' ∷ []

abbrev bare : Text
bare = b'k' ∷ b'e' ∷ b'y' ∷ b'-' ∷ b'0' ∷ b'0' ∷ b'0' ∷ b'1' ∷ []

normalizes : normalize_key 120 spaced ≡ some bare
unfolding normalize_key trim is_key_char is_space
normalizes = refl

abbrev reservation : Text
reservation = mw_pr ++ (separator ++ bare)

reserves_spaced : build_idempotency_reservation_key [] spaced ≡ some reservation
unfolding build_idempotency_reservation_key normalize_idempotency_key normalize_key trim is_key_char
    is_space
reserves_spaced = refl

reserves_bare : build_idempotency_reservation_key mw_pr bare ≡ some reservation
unfolding build_idempotency_reservation_key normalize_idempotency_key normalize_key trim is_key_char
    is_space
reserves_bare = refl

mw_pr_no_colon :
    (has_no_colon (normalize_worker_id []) ≡ true)
    × (has_no_colon (normalize_worker_id mw_pr) ≡ true)
unfolding normalize_worker_id trim is_space
mw_pr_no_colon = (refl, refl)
