-- ===== src/Frontend/Viewing.antt =====
-- What holds of the job panel of frontend/src/views/shared/workerRuntime.js along each run of its
-- handlers, and what an answer shows that comes late.
use ai_worker_platform.Common.{
  ℕ, Option, none, some, List, [], ◌∷◌, ◌≤◌, length, take, zero, suc, arith, inl, inr, ◌≡◌,
  Bool-cases, map, subst, refl, sym,
}
use ai_worker_platform.Common.Sets.{IsDistinct}
use ai_worker_platform.Frontend.Sessions.{SessionJob, ids, has_ended, upsert_job}
use ai_worker_platform.Frontend.Listing.{
  IsListing, normalize_jobs-IsListing, upsert_job-IsListing, remove_job-IsListing,
}
use ai_worker_platform.Frontend.Panel.{
  Panel, put_selected, request_detail, show_selected, Detail, refresh_job_detail, detail_arrived,
  select_active_job, apply_snapshot, apply_realtime_message, restore_active_jobs,
  cancellation_answered, list_selected, resume, show_message, reset_job_session, job_of_message,
}
use ai_worker_platform.Frontend.Messages.{Message, Snapshot, show_event}

pub length-take-le {ℓ} : {A : Type ℓ} (n : ℕ) (xs : List A) → length (take n xs) ≤ n
length-take-le zero xs = omega arith
length-take-le (suc n) [] = omega arith
length-take-le (suc n) (x ∷ xs) = omega (arith, length-take-le n xs)

-- The tab's jobs are a listing, and at most 50 events are kept.
pub record IsTidy (p : Panel) : Type 0 where
  pub listing : IsListing p.jobs
  pub few : length p.events ≤ 50

-- What may happen to a panel. The list endpoint answers with jobs that differ.
pub data Handled (tss : ℕ) (p : Panel) : Panel → Type 0 where
  restored_none : Handled tss p (restore_active_jobs tss none p)
  restored :
      (items : List SessionJob)
      → IsDistinct (ids items)
      → Handled tss p (restore_active_jobs tss (some items) p)
  selected : (j : ℕ) → Handled tss p (select_active_job j p)
  subscribed : (s : Snapshot) → Handled tss p (apply_snapshot s p)
  messaged : (m : Message) → Handled tss p (apply_realtime_message m p)
  answered : (d : Option Detail) → Handled tss p (detail_arrived d p)
  cancelled : (job : SessionJob) → Handled tss p (cancellation_answered job p)

tidy :
    (q : Panel) {jobs : List SessionJob}
    → IsListing jobs
    → q.jobs ≡ jobs
    → length q.events ≤ 50
    → IsTidy q
tidy q l e f = record { listing = subst IsListing (sym e) l; few = f }

request_detail-IsTidy : (o : Option ℕ) (p : Panel) → IsTidy p → IsTidy (request_detail o p)
unfolding request_detail
request_detail-IsTidy none p t = t
request_detail-IsTidy (some j) p t = record { listing = t.listing; few = t.few }

empty-IsListing : IsListing []
empty-IsListing = record { sorted = refl; live = refl; distinct = λ a. omega arith }

refresh_job_detail-IsTidy : (p : Panel) → IsTidy p → IsTidy (refresh_job_detail p)
unfolding refresh_job_detail
refresh_job_detail-IsTidy p t = request_detail-IsTidy p.current_job p t

show_selected-IsTidy : (j : ℕ) (p : Panel) → IsListing p.jobs → IsTidy (show_selected j p)
unfolding show_selected
show_selected-IsTidy j p l = record { listing = l; few = omega arith }

select_active_job-IsTidy : (j : ℕ) (p : Panel) → IsListing p.jobs → IsTidy (select_active_job j p)
unfolding select_active_job
select_active_job-IsTidy j p l =
    refresh_job_detail-IsTidy (show_selected j p) (show_selected-IsTidy j p l)

resume-IsTidy : (tss : ℕ) (o : Option ℕ) (p : Panel) → IsListing p.jobs → IsTidy (resume tss o p)
unfolding resume
resume-IsTidy tss none p l = unfold reset_job_session in record { listing = l; few = omega arith }
resume-IsTidy tss (some j) p l = select_active_job-IsTidy j p l

put_selected-IsTidy : (o : Option ℕ) (p : Panel) → IsTidy p → IsTidy (put_selected o p)
unfolding put_selected
put_selected-IsTidy none p t = t
put_selected-IsTidy (some j) p t = record {
  listing = upsert_job-IsListing (job_of_message j p) p.jobs t.listing;
  few = t.few;
}

list_selected-IsTidy : (p : Panel) → IsTidy p → IsTidy (list_selected p)
unfolding list_selected
list_selected-IsTidy p t = put_selected-IsTidy p.current_job p t

show_message-IsTidy : (m : Message) (p : Panel) → IsTidy p → IsTidy (show_message m p)
unfolding show_message
show_message-IsTidy m p t = record {
  listing = t.listing;
  few = length-take-le 50 (show_event m ∷ p.events);
}

apply_realtime_message-IsTidy :
    (m : Message) (p : Panel) → IsTidy p → IsTidy (apply_realtime_message m p)
unfolding apply_realtime_message
apply_realtime_message-IsTidy m p t =
    let shown = list_selected-IsTidy (show_message m p) (show_message-IsTidy m p t) in
    elim (Bool-cases (has_ended m.status)) [
      | inl e ↦ rw e (refresh_job_detail-IsTidy _ shown)
      | inr e ↦ rw e shown
    ]

detail_arrived-IsTidy : (d : Option Detail) (p : Panel) → IsTidy p → IsTidy (detail_arrived d p)
unfolding detail_arrived
detail_arrived-IsTidy none p t = record { listing = t.listing; few = t.few }
detail_arrived-IsTidy (some d) p t =
    let l = upsert_job-IsListing d.job p.jobs t.listing in
    elim (Bool-cases (has_ended d.job.status)) [
      | inl e ↦
          tidy _ (remove_job-IsListing d.job.job_id (upsert_job d.job p.jobs) l) (rw e refl) t.few
      | inr e ↦ tidy _ l (rw e refl) t.few
    ]

-- Whatever is handled next, where the list endpoint answers with jobs that differ: if they were so
-- before, the tab's jobs stay sorted with the newest first, all
-- of them running and none listed twice, and at most 50 events are kept.
pub Handled-IsTidy : {tss : ℕ} {p q : Panel} → Handled tss p q → IsTidy p → IsTidy q
Handled-IsTidy {tss} {p} restored_none t =
    unfold restore_active_jobs in resume-IsTidy tss _ _ empty-IsListing
Handled-IsTidy {tss} {p} (restored items d) t =
    unfold restore_active_jobs in resume-IsTidy tss _ _ (normalize_jobs-IsListing items d)
Handled-IsTidy {tss} {p} (selected j) t = select_active_job-IsTidy j p t.listing
Handled-IsTidy {tss} {p} (subscribed s) t =
    unfold apply_snapshot in
    record { listing = t.listing; few = length-take-le 50 (map show_event s.events) }
Handled-IsTidy {tss} {p} (messaged m) t = apply_realtime_message-IsTidy m p t
Handled-IsTidy {tss} {p} (answered d) t = detail_arrived-IsTidy d p t
Handled-IsTidy {tss} {p} (cancelled job) t =
    unfold cancellation_answered in
    refresh_job_detail-IsTidy _
      (record { listing = upsert_job-IsListing job p.jobs t.listing; few = t.few })
