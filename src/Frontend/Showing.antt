-- ===== src/Frontend/Showing.antt =====
-- What the job panel of frontend/src/views/shared/workerRuntime.js shows after a message, an
-- answer or a restart of the page.
use ai_worker_platform.Common.{
  ℕ, none, some, or_option, [], ◌∷◌, ◌++◌, ◌==◌, ◌≡◌, if◌then◌else◌, arith, List, Option, Bool,
  true, any, false, ◌&&◌, refl,
}
use ai_worker_platform.Frontend.Sessions.{has_ended, find_job, SessionJob, is_live, upsert_job}
use ai_worker_platform.Frontend.Listing.{IsListing}
use ai_worker_platform.Frontend.Finding.{find_job-upsert_job, find_job-remove_job}
use ai_worker_platform.Frontend.Panel.{
  Panel, apply_realtime_message, show_message, job_of_message, choose_job, detail_arrived, Detail,
  select_active_job, first_live,
}
use ai_worker_platform.Frontend.Messages.{Message}

job_of_message_lem :
    (j : ℕ) (p : Panel)
    → ((job_of_message j p).job_id ≡ j) × ((job_of_message j p).status ≡ p.current_status)
unfolding job_of_message
job_of_message_lem j p = ground arith

-- Where the tab's jobs are a listing and a job is selected: a message puts that job into the list
-- with the status that it reports, or takes it off the list when that status is final, and then
-- asks for the job's detail; no other job of the list changes.
pub apply_realtime_message_lem :
    (m : Message) (p : Panel) (j job_id : ℕ)
    → IsListing p.jobs
    → p.current_job ≡ some j
    → let after = apply_realtime_message m p in
      (find_job job_id after.jobs ≡ (
        if j == job_id
        then (if has_ended (or_option m.status p.current_status)
            then none
            else some (job_of_message j (show_message m p)))
        else find_job job_id p.jobs))
      × ((job_of_message j (show_message m p)).job_id ≡ j)
      × ((job_of_message j (show_message m p)).status ≡ or_option m.status p.current_status)
      × (after.current_status ≡ or_option m.status p.current_status)
      × (after.fetching ≡ (if has_ended m.status then p.fetching ++ (j ∷ []) else p.fetching))
unfolding apply_realtime_message
apply_realtime_message_lem m p j job_id l c =
    let (named, status) = job_of_message_lem j (show_message m p) in
    ground (arith, find_job-upsert_job job_id (job_of_message j (show_message m p)) p.jobs l)

-- An answer with a job puts that job into the tab's list as the answer has it, or takes it off when
-- it has ended; every other job of the list is as before.
pub find_job-detail_arrived :
    (d : Detail) (p : Panel) (job_id : ℕ)
    → IsListing p.jobs
    → find_job job_id (detail_arrived (some d) p).jobs ≡ (
        if d.job.job_id == job_id
        then (if is_live d.job then some d.job else none)
        else find_job job_id p.jobs)
unfolding detail_arrived
find_job-detail_arrived d p job_id l = ground (
  arith,
  find_job-upsert_job job_id d.job p.jobs l,
  find_job-remove_job job_id d.job.job_id (upsert_job d.job p.jobs),
)

-- If one job is selected and then another, while no request is under way, the details of both are
-- asked for; and if the answer for the second arrives before that for the first, the panel ends with
-- the second job selected and remembered, but with the detail and the status of the first in place of
-- those of the second, which it showed before.
pub late_answer :
    (first second : Detail) (j : ℕ) (p : Panel)
    → p.fetching ≡ []
    → second.job.job_id ≡ j
    → (first.job.job_id == j) ≡ false
    → let asked = select_active_job j (select_active_job first.job.job_id p) in
      let after = detail_arrived (some first) (detail_arrived (some second) asked) in
      (asked.fetching ≡ first.job.job_id ∷ j ∷ [])
      × ((detail_arrived (some second) asked).detail ≡ some second)
      × ((detail_arrived (some second) asked).current_status ≡ second.job.status)
      × (after.current_job ≡ some j)
      × (after.stored ≡ some j)
      × (after.detail ≡ some first)
      × (after.current_status ≡ first.job.status)
unfolding detail_arrived select_active_job
late_answer first second j p f s e = ground (arith, f)

-- Jobs of which one with the identifier still runs.
abbrev pub shows : ℕ → List SessionJob → Bool
shows j jobs = any (λ job. is_live job && job.job_id == j) jobs

first_live-shows : (jobs : List SessionJob) (j : ℕ) → first_live jobs ≡ some j → shows j jobs ≡ true
first_live-shows [] j h = cc
first_live-shows (job ∷ jobs) j h = ground (arith, first_live-shows jobs j)

first_live-none : (jobs : List SessionJob) → first_live jobs ≡ none → any is_live jobs ≡ false
first_live-none [] h = refl
first_live-none (job ∷ jobs) h = ground (arith, first_live-none jobs)

shows_live : (j : ℕ) (jobs : List SessionJob) → shows j jobs ≡ true → any is_live jobs ≡ true
shows_live j [] h = cc
shows_live j (job ∷ jobs) h = ground (arith, shows_live j jobs)

-- When the page starts again, the job chosen still runs and is in the list; it is the remembered
-- one if that one is there and runs; and none is chosen only when none of the list runs.
pub choose_job_lem :
    (stored : Option ℕ) (jobs : List SessionJob)
    → ((j : ℕ) → choose_job stored jobs ≡ some j → shows j jobs ≡ true)
      × ((j : ℕ) → stored ≡ some j → shows j jobs ≡ true → choose_job stored jobs ≡ some j)
      × (choose_job stored jobs ≡ none → any is_live jobs ≡ false)
unfolding choose_job
choose_job_lem none jobs =
    (λ j h. first_live-shows jobs j h, λ j h k. cc, λ h. first_live-none jobs h)
choose_job_lem (some i) jobs = (
  λ j h. ground (arith, first_live-shows jobs j),
  λ j h k. ground arith,
  λ h. ground (arith, first_live-none jobs),
)
