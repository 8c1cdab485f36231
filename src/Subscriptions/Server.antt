-- ===== src/Subscriptions/Server.antt =====
-- The handling of messages in backend/src/websocket/server.js, and the snapshot of a job in
-- backend/src/websocket/eventPublisher.js. A message is its action and its job identifier, trimmed
-- and in one case; identifiers of jobs are texts, and `number_of` numbers them. The counts of the
-- job's records are arguments, and so is whether a read of the database fails. The manager of the
-- subscriptions is that of the moment in which the look-up of the job is answered; between it and
-- the reply to a subscription the snapshot is awaited, so that reply is a step of its own.
use ai_worker_platform.Common.{
  ◌∷◌, none, some, Option, ℕ, Bool, List, or_else, false, if◌then◌else◌, ◌==◌, ◌&&◌, ◌||◌, all, not,
  true,
}
use ai_worker_platform.Control.Text.{Text, between, is_blank}
use ai_worker_platform.Job.Status.{Status}
use ai_worker_platform.Job.Document.{JobDoc}
use ai_worker_platform.Subscriptions.Manager.{
  subscribe_client_to_job, unsubscribe_client_from_job, Manager,
}
use ai_worker_platform.Worker.Phase.{Phase}
use ai_worker_platform.Worker.State.{WorkerState, get_state, States}
use ai_worker_platform.Common.Maps.{lookup}

-- `action`, after its normalization
pub data Action : Type 0 where
  subscribe unsubscribe unsupported : Action

pub record Message : Type 0 where
  pub action : Action
  pub job_id : Text

-- What arrives: no JSON; JSON null, or fields that cannot be turned into texts, on which the handler
-- throws; or a message.
pub data Incoming : Type 0 where
  not_json unusable : Incoming
  parsed : Message → Incoming

-- The codes of sendError.
pub data ErrorCode : Type 0 where
  validation_error job_not_found invalid_message unsupported_action internal_error : ErrorCode

-- state of buildJobStateSnapshot
pub record Snapshot : Type 0 where
  pub status : Status
  pub phase : Option Phase
  pub progress : Option (ℕ × ℕ)
  pub heartbeat_at : Option ℕ
  pub updated_at : ℕ
  pub cancellation_requested : Bool
  pub requested_site_count : Option ℕ
  pub matched_site_count : Option ℕ
  pub unmatched_site_count : Option ℕ
  pub output_file_count : Option ℕ
  pub review_required_count : ℕ
  pub warning_count : ℕ
  pub file_count : ℕ

-- What is sent back to the client.
pub data Response : Type 0 where
  error : ErrorCode → Response
  subscribed : ℕ → Snapshot → Response
  unsubscribed : ℕ → Response

-- [A-Z0-9-]
abbrev pub is_id_char : ℕ → Bool
is_id_char c = between b'A' b'Z' c || between b'0' b'9' c || c == b'-'

-- isValidJobId: the second expression, which accepts what the first does
abbrev pub is_valid_job_id : Text → Bool
is_valid_job_id (p ∷ r ∷ dash ∷ c ∷ rest) =
    (p == b'P') && (r == b'R') && (dash == b'-') && all is_id_char (c ∷ rest)
is_valid_job_id _ = false

-- buildProgress
abbrev pub build_progress : Option WorkerState → Option (ℕ × ℕ)
build_progress none = none
build_progress (some state) = some (state.processed_rows, state.total_rows)

abbrev pub job_updated_at : JobDoc → ℕ
job_updated_at job = or_else job.completed_at (or_else job.started_at job.created_at)

-- buildJobStateSnapshot, for a job that was found
unfoldable pub build_job_state_snapshot : JobDoc → Option WorkerState → ℕ → ℕ → ℕ → Snapshot
build_job_state_snapshot job none files warnings reviews = record {
  status = job.status;
  phase = none;
  progress = build_progress none;
  heartbeat_at = none;
  updated_at = job_updated_at job;
  cancellation_requested = false;
  requested_site_count = job.site_counts.requested;
  matched_site_count = job.site_counts.matched;
  unmatched_site_count = job.site_counts.unmatched;
  output_file_count = job.output_file_count;
  review_required_count = reviews;
  warning_count = warnings;
  file_count = files;
}
build_job_state_snapshot job (some state) files warnings reviews = record {
  status = job.status;
  phase = some state.phase;
  progress = build_progress (some state);
  heartbeat_at = some state.heartbeat_timestamp;
  updated_at = state.updated_at;
  cancellation_requested = state.cancellation_requested;
  requested_site_count = job.site_counts.requested;
  matched_site_count = job.site_counts.matched;
  unmatched_site_count = job.site_counts.unmatched;
  output_file_count = job.output_file_count;
  review_required_count = reviews;
  warning_count = warnings;
  file_count = files;
}

-- What the handlers read: the jobs, the worker states and the counts.
pub record Records : Type 0 where
  pub number_of : Text → ℕ
  pub jobs : List (ℕ × JobDoc)
  pub states : States
  pub counts : ℕ → ℕ × ℕ × ℕ

-- `Job.findOne({ jobId })`, which finds a logically deleted job as well
abbrev pub find_job : ℕ → Records → Option JobDoc
find_job id r = lookup id r.jobs

abbrev pub snapshot_of : ℕ → Records → JobDoc → Snapshot
snapshot_of id r job =
    build_job_state_snapshot job (get_state id r.states) (r.counts id).0 (r.counts id).1
      (r.counts id).2

-- What has been done for a message: the reply was sent, or the client was entered for a job and
-- the snapshot of it is awaited.
pub data Handled : Type 0 where
  sent : Response → Handled
  awaits_snapshot : ℕ → JobDoc → Handled

-- handleSubscribe from `subscribeClientToJob` to its second `await`, for the job that was found
abbrev pub subscribe_found : ℕ → ℕ → Manager → Option JobDoc → Manager × Handled
subscribe_found client id m none =
    (subscribe_client_to_job client id false m, sent (error job_not_found))
subscribe_found client id m (some job) =
    (subscribe_client_to_job client id true m, awaits_snapshot id job)

-- handleSubscribe after its second `await`, and the `catch` of the connection if the snapshot fails
unfoldable pub reply_subscribed : Records → ℕ → JobDoc → Bool → Response
unfolding build_job_state_snapshot
reply_subscribed later id job fails =
    if fails then error internal_error else subscribed id (snapshot_of id later job)

-- handleSubscribe to its second `await`, and the `catch` of the connection if the look-up fails
unfoldable pub handle_subscribe : Records → Bool → ℕ → Text → Manager → Manager × Handled
unfolding subscribe_client_to_job
handle_subscribe r read_fails client job_id m =
    if is_blank job_id
    then (m, sent (error validation_error))
    else if not (is_valid_job_id job_id)
    then (m, sent (error validation_error))
    else if read_fails
    then (m, sent (error internal_error))
    else subscribe_found client (r.number_of job_id) m (find_job (r.number_of job_id) r)

-- handleUnsubscribe
unfoldable pub handle_unsubscribe : Records → ℕ → Text → Manager → Manager × Handled
unfolding unsubscribe_client_from_job
handle_unsubscribe r client job_id m =
    if is_blank job_id then (m, sent (error validation_error)) else (
      unsubscribe_client_from_job client (r.number_of job_id) m,
      sent (unsubscribed (r.number_of job_id)),
    )

-- handleClientMessage, with the `catch` of the connection
unfoldable pub handle_client_message : Records → Bool → ℕ → Incoming → Manager → Manager × Handled
unfolding handle_subscribe handle_unsubscribe
handle_client_message r read_fails client not_json m = (m, sent (error invalid_message))
handle_client_message r read_fails client unusable m = (m, sent (error internal_error))
handle_client_message r read_fails client (parsed message) m = elim message.action [
  | subscribe ↦ handle_subscribe r read_fails client message.job_id m
  | unsubscribe ↦ handle_unsubscribe r client message.job_id m
  | unsupported ↦ (m, sent (error unsupported_action))
]
