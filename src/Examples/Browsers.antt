-- ===== src/Examples/Browsers.antt =====
-- A browser tab with two jobs and its WebSocket client.
use ai_worker_platform.Common.{ℕ, true, false, none, some, [], ◌∷◌, ◌≤◌, ◌≡◌, refl, length, arith}
use ai_worker_platform.Common.Sets.{has}
use ai_worker_platform.Job.Status.{generating, completed}
use ai_worker_platform.Frontend.Socket.{
  Client, initial, close, connect, react, react_all, opened, ended, timer_fired,
}
use ai_worker_platform.Frontend.Reconnecting.{
  IsClosed, Run, start, next, connects, closes, reacts, react_all-close, Run-keeps_one,
  connect_again,
}
use ai_worker_platform.Frontend.Sessions.{SessionJob, find_job}
use ai_worker_platform.Frontend.Panel.{
  Panel, Detail, apply_realtime_message, select_active_job, detail_arrived, job_of_message,
  show_message,
}
use ai_worker_platform.Frontend.Messages.{Message}
use ai_worker_platform.Frontend.Listing.{IsListing}
use ai_worker_platform.Frontend.Viewing.{IsTidy, messaged, Handled-IsTidy}
use ai_worker_platform.Frontend.Showing.{apply_realtime_message_lem, late_answer}

-- A client that is connected for job 7.
abbrev connected_client : Client
unfolding connect initial react
connected_client = react (opened 0) (connect 7 initial)

react_all-close_example :
    IsClosed 1
      ((0, 7) ∷ [])
      (react_all (ended 0 ∷ timer_fired ∷ opened 0 ∷ []) (close connected_client))
unfolding connected_client
react_all-close_example = react_all-close (ended 0 ∷ timer_fired ∷ opened 0 ∷ []) connected_client

-- It loses its socket, opens another and is closed.
abbrev closed_client : Client
unfolding close connected_client react
closed_client = close (react timer_fired (react (ended 0) connected_client))

closed_client-Run : Run closed_client
unfolding closed_client connected_client initial
closed_client-Run =
    next
      (next (next (next (next start (connects 7 refl refl)) (reacts (opened 0))) (reacts (ended 0)))
        (reacts timer_fired))
      closes

Run-keeps_one_example :
    (length closed_client.alive ≤ 1)
    × ((s : ℕ) → has s closed_client.alive ≡ true → closed_client.socket ≡ some s)
Run-keeps_one_example = Run-keeps_one closed_client-Run

connect_again_example :
    let after =
      react_all (opened 1 ∷ ended 0 ∷ timer_fired ∷ opened 2 ∷ []) (connect 8 connected_client) in
    (after.alive ≡ 1 ∷ 2 ∷ []) × (after.sent ≡ (2, 8) ∷ (1, 8) ∷ (0, 7) ∷ [])
unfolding connected_client
connect_again_example = connect_again connected_client 0 8 refl refl (omega arith) refl

abbrev job : ℕ → ℕ → SessionJob
job job_id created = record {
  job_id = job_id;
  status = some generating;
  worker_id = none;
  created_at = some created;
  pr_scope = none;
}

abbrev panel : Panel
panel = record {
  jobs = job 8 200 ∷ job 7 100 ∷ [];
  current_job = some 7;
  stored = some 7;
  current_status = some generating;
  current_scope = 0;
  current_phase = none;
  progress = none;
  updated_at = none;
  events = [];
  detail = none;
  fetching = [];
  notice = none;
  client = connected_client;
}

abbrev final_message : Message
final_message = record {
  job_id = 7;
  status = some completed;
  phase = none;
  current_phase = none;
  progress = none;
  updated_at = some 300;
  timestamp = none;
  ai_message = none;
  llm_success = false;
  text = none;
  event = none;
}

panel-IsListing : IsListing panel.jobs
panel-IsListing = record { sorted = refl; live = refl; distinct = λ a. ground arith }

panel-IsTidy : IsTidy panel
panel-IsTidy = record { listing = panel-IsListing; few = omega arith }

Handled-IsTidy_example : IsTidy (apply_realtime_message final_message panel)
Handled-IsTidy_example = Handled-IsTidy {tss = 0} (messaged final_message) panel-IsTidy

apply_realtime_message_lem_example :
    let after = apply_realtime_message final_message panel in
    (find_job 7 after.jobs ≡ none)
    × ((job_of_message 7 (show_message final_message panel)).job_id ≡ 7)
    × ((job_of_message 7 (show_message final_message panel)).status ≡ some completed)
    × (after.current_status ≡ some completed)
    × (after.fetching ≡ 7 ∷ [])
apply_realtime_message_lem_example =
    apply_realtime_message_lem final_message panel 7 7 panel-IsListing refl

abbrev ended_detail : Detail
ended_detail = record { job = record (job 7 100) { status = some completed }; phase = none }

abbrev running_detail : Detail
running_detail = record { job = job 8 200; phase = none }

late_answer_example :
    let asked = select_active_job 8 (select_active_job 7 panel) in
    let after = detail_arrived (some ended_detail) (detail_arrived (some running_detail) asked) in
    (asked.fetching ≡ 7 ∷ 8 ∷ [])
    × ((detail_arrived (some running_detail) asked).detail ≡ some running_detail)
    × ((detail_arrived (some running_detail) asked).current_status ≡ some generating)
    × (after.current_job ≡ some 8)
    × (after.stored ≡ some 8)
    × (after.detail ≡ some ended_detail)
    × (after.current_status ≡ some completed)
late_answer_example = late_answer ended_detail running_detail 8 panel refl refl refl
