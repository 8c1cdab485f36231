-- ===== src/Worker/State.antt =====
-- The table `states` of backend/src/services/workerStateService.js and its operations. An
-- operation takes the instant at which it runs; `none` for a message stands for a missing or empty
-- one, and `none` for a number for a value that is not finite.
use ai_worker_platform.Common.{
  if◌then◌else◌, List, String, ℕ, Bool, Option, false, is_some, or_else, some, true, none, not,
  ◌&&◌,
}
use ai_worker_platform.Worker.Phase.{Phase, name}
use ai_worker_platform.Worker.Phase
use ai_worker_platform.Common.Maps.{delete, insert, lookup}

pub record WorkerError : Type 0 where
  pub code : String
  pub message : String

pub record WorkerState : Type 0 where
  pub job_id : ℕ
  pub phase : Phase
  pub processed_rows : ℕ
  pub total_rows : ℕ
  pub cancellation_requested : Bool
  pub started_at : Option ℕ
  pub updated_at : ℕ
  pub completed_at : Option ℕ
  pub error : Option WorkerError
  pub heartbeat_message : String
  pub heartbeat_timestamp : ℕ

abbrev pub States : Type 0
States = List (ℕ × WorkerState)

abbrev pub new_state : ℕ → ℕ → Phase → WorkerState
new_state now job_id phase = record {
  job_id = job_id;
  phase = phase;
  processed_rows = 0;
  total_rows = 0;
  cancellation_requested = false;
  started_at = none;
  updated_at = now;
  completed_at = none;
  error = none;
  heartbeat_message = "Job queued.";
  heartbeat_timestamp = now;
}

-- createState
unfoldable pub create_state : ℕ → ℕ → Phase → States → States
create_state now job_id phase states = insert job_id (new_state now job_id phase) states

-- getState; the copies that it makes are the value itself
unfoldable pub get_state : ℕ → States → Option WorkerState
get_state job_id states = lookup job_id states

-- getOrCreateState
unfoldable pub get_or_create_state : ℕ → ℕ → States → States
unfolding create_state
get_or_create_state now job_id states =
    if is_some (lookup job_id states) then states else create_state now job_id Phase.queued states

-- mutateState
unfoldable pub mutate_state : ℕ → ℕ → (WorkerState → WorkerState) → States → States
mutate_state now job_id mutator states =
    let state = mutator (or_else (lookup job_id states) (new_state now job_id Phase.queued)) in
    insert job_id (record state { updated_at = now; heartbeat_timestamp = now }) states

-- setPhase
unfoldable pub set_phase : ℕ → ℕ → Phase → Option String → States → States
unfolding mutate_state
set_phase now job_id phase message = mutate_state now job_id λ state. record state {
  phase = phase;
  started_at =
      if not (is_some state.started_at) && not (Phase.is_queued_phase phase)
      then some now
      else state.started_at;
  heartbeat_message = or_else message (name phase);
}

-- setProgress
unfoldable pub set_progress : ℕ → ℕ → Option ℕ → Option ℕ → Option String → States → States
unfolding mutate_state
set_progress now job_id processed total message = mutate_state now job_id λ state. record state {
  processed_rows = or_else processed state.processed_rows;
  total_rows = or_else total state.total_rows;
  heartbeat_message = or_else message state.heartbeat_message;
}

-- requestCancellation
unfoldable pub request_cancellation : ℕ → ℕ → States → States
unfolding mutate_state
request_cancellation now job_id = mutate_state now job_id λ state. record state {
  phase = Phase.cancelling;
  cancellation_requested = true;
  heartbeat_message = "Cancellation requested.";
}

-- isCancellationRequested
unfoldable pub is_cancellation_requested : ℕ → States → Bool
is_cancellation_requested job_id states = elim (lookup job_id states) [
  | none ↦ false
  | some state ↦ state.cancellation_requested
]

-- setError
unfoldable pub set_error : ℕ → ℕ → Option String → Option String → States → States
unfolding mutate_state
set_error now job_id code message = mutate_state now job_id λ state. record state {
  phase = Phase.failed;
  error =
      some
        (record { code = or_else code "WORKER_ERROR"; message = or_else message "Worker failed." });
  completed_at = some now;
  heartbeat_message = or_else message "Worker failed.";
}

-- setComplete and setCancelled
unfoldable pub set_finished : ℕ → ℕ → Phase → String → States → States
unfolding mutate_state
set_finished now job_id phase message =
    mutate_state now job_id
      λ state. record state { phase = phase; completed_at = some now; heartbeat_message = message }

-- setComplete
unfoldable pub set_complete : ℕ → ℕ → String → States → States
unfolding set_finished
set_complete now job_id message = set_finished now job_id Phase.completed message

-- setCancelled
unfoldable pub set_cancelled : ℕ → ℕ → String → States → States
unfolding set_finished
set_cancelled now job_id message = set_finished now job_id Phase.cancelled message

-- removeState
unfoldable pub remove_state : ℕ → States → States
remove_state job_id states = delete job_id states
