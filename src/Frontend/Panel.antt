-- ===== src/Frontend/Panel.antt =====
-- The job panel of the browser, frontend/src/views/shared/workerRuntime.js: the selected job, what
-- is shown of it, and the handlers of the answers and messages that arrive. Texts other than
-- statuses are numbers; a missing or empty one is `none`.
use ai_worker_platform.Common.{
  ℕ, Option, none, some, or_option, List, [], ◌∷◌, ◌++◌, if◌then◌else◌, map, take, any, ◌&&◌, ◌==◌,
}
use ai_worker_platform.Job.Status.{Status}
use ai_worker_platform.Frontend.Socket.{Client, connect}
use ai_worker_platform.Frontend.Messages.{Message, Snapshot, EventItem, display_message, show_event}
use ai_worker_platform.Frontend.Sessions.{
  SessionJob, remove_job, upsert_job, find_job, has_ended, is_live, normalize_jobs,
}

-- The answer of the detail endpoint: the job and the phase it is in.
pub record Detail : Type 0 where
  pub job : SessionJob
  pub phase : Option ℕ

-- The fields of the mixin that the handlers below read and write; `fetching` holds the requests for
-- a detail that have no answer yet, `stored` the job that the tab's storage remembers.
pub record Panel : Type 0 where
  pub jobs : List SessionJob
  pub current_job : Option ℕ
  pub stored : Option ℕ
  pub current_status : Option Status
  pub current_scope : ℕ
  pub current_phase : Option ℕ
  pub progress : Option ℕ
  pub updated_at : Option ℕ
  pub events : List EventItem
  pub detail : Option Detail
  pub fetching : List ℕ
  pub notice : Option ℕ
  pub client : Client

abbrev pub or_scope : Option ℕ → ℕ → ℕ
or_scope none scope = scope
or_scope (some s) scope = s

-- The request of a detail, of the selected job.
unfoldable pub request_detail : Option ℕ → Panel → Panel
request_detail none p = p
request_detail (some j) p = record p { fetching = p.fetching ++ (j ∷ []) }

-- refreshJobDetail, up to its `await`
unfoldable pub refresh_job_detail : Panel → Panel
unfolding request_detail
refresh_job_detail p = request_detail p.current_job p

-- refreshJobDetail, when the answer is there; `none` is an answer without a job.
unfoldable pub detail_arrived : Option Detail → Panel → Panel
detail_arrived none p = record p { detail = none }
detail_arrived (some d) p =
    let listed = upsert_job d.job p.jobs in
    record p {
      detail = some d;
      current_status = d.job.status;
      current_scope = or_scope d.job.pr_scope p.current_scope;
      current_phase = d.phase;
      jobs = if has_ended d.job.status then remove_job d.job.job_id listed else listed;
    }

-- What selectActiveJob sets before it asks for the detail.
unfoldable pub show_selected : ℕ → Panel → Panel
show_selected j p =
    let chosen = find_job j p.jobs in
    record p {
      current_job = some j;
      stored = some j;
      events = [];
      progress = none;
      current_phase = none;
      detail = none;
      current_status = elim chosen [ none ↦ none | some job ↦ job.status ];
      current_scope = elim chosen [
        | none ↦ p.current_scope
        | some job ↦ or_scope job.pr_scope p.current_scope
      ];
      client = connect j p.client;
    }

-- selectActiveJob
unfoldable pub select_active_job : ℕ → Panel → Panel
unfolding show_selected refresh_job_detail
select_active_job j p = refresh_job_detail (show_selected j p)

-- resetJobSession; the scope falls back to `TSS`
unfoldable pub reset_job_session : ℕ → Panel → Panel
reset_job_session tss p = record p {
  current_job = none;
  stored = none;
  current_status = none;
  progress = none;
  detail = none;
  events = [];
  current_scope = tss;
  notice = none;
  current_phase = none;
}

-- applySnapshot
unfoldable pub apply_snapshot : Snapshot → Panel → Panel
unfolding display_message
apply_snapshot s p = record p {
  current_status = or_option s.status p.current_status;
  progress = or_option s.progress p.progress;
  current_phase = or_option s.current_phase p.current_phase;
  updated_at = s.updated_at;
  events = take 50 (map show_event s.events);
}

-- The worker of the job that is shown.
abbrev pub shown_worker : Option Detail → Option ℕ
shown_worker none = none
shown_worker (some d) = d.job.worker_id

-- The job that a message puts into the list, for the selected one.
unfoldable pub job_of_message : ℕ → Panel → SessionJob
job_of_message j p = elim (find_job j p.jobs) [
  | none ↦ record {
    job_id = j;
    status = p.current_status;
    worker_id = shown_worker p.detail;
    created_at = p.updated_at;
    pr_scope = some p.current_scope;
  }
  | some job ↦ record job {
    job_id = j;
    status = p.current_status;
    worker_id = or_option job.worker_id (shown_worker p.detail);
    created_at = or_option job.created_at p.updated_at;
    pr_scope = or_option job.pr_scope (some p.current_scope);
  }
]

-- The upsert of applyRealtimeMessage: with no job selected it does nothing.
unfoldable pub put_selected : Option ℕ → Panel → Panel
unfolding job_of_message
put_selected none p = p
put_selected (some j) p = record p { jobs = upsert_job (job_of_message j p) p.jobs }

unfoldable pub list_selected : Panel → Panel
unfolding put_selected
list_selected p = put_selected p.current_job p

-- The fields that a message sets.
unfoldable pub show_message : Message → Panel → Panel
show_message m p = record p {
  current_status = or_option m.status p.current_status;
  current_phase = or_option m.current_phase p.current_phase;
  progress = or_option m.progress p.progress;
  updated_at = or_option m.updated_at m.timestamp;
  events = take 50 (show_event m ∷ p.events);
}

-- applyRealtimeMessage
unfoldable pub apply_realtime_message : Message → Panel → Panel
unfolding show_message list_selected refresh_job_detail
apply_realtime_message m p =
    let shown = list_selected (show_message m p) in
    if has_ended m.status then refresh_job_detail shown else shown

-- visibleActiveSessionJobs[0]
abbrev pub first_live : List SessionJob → Option ℕ
first_live [] = none
first_live (job ∷ jobs) =
    let later = first_live jobs in if is_live job then some job.job_id else later

-- The stored job if it is among the visible ones, else the first of them.
unfoldable pub choose_job : Option ℕ → List SessionJob → Option ℕ
choose_job none jobs = first_live jobs
choose_job (some j) jobs =
    if any (λ job. is_live job && job.job_id == j) jobs then some j else first_live jobs

-- The second half of `restoreActiveJobs`: a job is selected, or the session reset.
unfoldable pub resume : ℕ → Option ℕ → Panel → Panel
unfolding select_active_job reset_job_session
resume tss none p = reset_job_session tss p
resume tss (some j) p = select_active_job j p

-- restoreActiveJobs, with what the list endpoint answers; `none` is an error, whose notice is left
-- out.
unfoldable pub restore_active_jobs : ℕ → Option (List SessionJob) → Panel → Panel
unfolding resume choose_job
restore_active_jobs tss answer p =
    let jobs : List SessionJob = elim answer [ none ↦ [] | some items ↦ normalize_jobs items ] in
    resume tss (choose_job p.stored jobs) (record p { jobs = jobs })

-- submitCancellationRequest, when the answer is there, with the job that it holds
unfoldable pub cancellation_answered : SessionJob → Panel → Panel
unfolding refresh_job_detail
cancellation_answered job p =
    refresh_job_detail (record p { current_status = job.status; jobs = upsert_job job p.jobs })
