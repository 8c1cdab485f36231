-- ===== src/Subscriptions/Replies.antt =====
-- What a client is told is what was done.
use ai_worker_platform.Subscriptions.Server.{
  Records, handle_client_message, Response, error, subscribed, find_job, unsubscribed,
  build_job_state_snapshot, handle_subscribe, handle_unsubscribe, is_valid_job_id, subscribe_found,
  subscribe, unsubscribe, unsupported, Handled, reply_subscribed, Incoming, internal_error, sent,
  snapshot_of, Snapshot, awaits_snapshot, parsed, not_json, unusable,
}
use Prim.Native.Nat.{ℕ}
use ai_worker_platform.Subscriptions.Manager.{
  Manager, entries, subscribe_client_to_job, unsubscribe_client_from_job,
}
use ai_worker_platform.Common.{
  Option, some, none, ◌≡◌, refl, true, false, arith, Bool-cases, eqb_refl, inl, inr, Bool,
}
use ai_worker_platform.Common.Sets.{has, add, has-add}
use ai_worker_platform.Job.Document.{JobDoc}
use ai_worker_platform.Worker.State.{WorkerState}
use ai_worker_platform.Subscriptions.Consistency.{
  unsubscribe-by_job_id, entries-insert, has-drop_subscriber, unsubscribe-entries,
}
use ai_worker_platform.Control.Text.{Text, is_blank}
use ai_worker_platform.Common.Maps.{lookup}

-- The client stands in both tables for the job, or in neither.
abbrev pub StandsIn : ℕ → ℕ → Bool → Manager → Type 0
StandsIn client id b m =
    (has client (entries id m.subscriptions_by_job_id) ≡ b)
    × (has id (entries client m.subscriptions_by_client) ≡ b)

-- The reply after a snapshot that was read, or that could not be read.
abbrev pub IsReply : ℕ → JobDoc → Bool → Response → Type 0
IsReply id job true response = response ≡ error internal_error
IsReply id job false response =
    (state : Snapshot) × (response ≡ subscribed id state) × (state.status ≡ job.status)

-- What the reply to a message says of the client's subscriptions.
abbrev pub IsTrue : Records → ℕ → Manager → Manager × Handled → Type 0
IsTrue r client m (m', sent (error code)) = m' ≡ m
IsTrue r client m (m', sent (subscribed id state)) = StandsIn client id true m'
IsTrue r client m (m', sent (unsubscribed id)) = StandsIn client id false m'
IsTrue r client m (m', awaits_snapshot id job) =
    StandsIn client id true m'
    × (lookup id r.jobs ≡ some job)
    × ((later : Records) (fails : Bool)
        → IsReply id job fails (reply_subscribed later id job fails))

subscribe_client_to_job-both :
    (client id : ℕ) (m : Manager)
    → let m' = subscribe_client_to_job client id true m in
      (has client (entries id m'.subscriptions_by_job_id) ≡ true)
      × (has id (entries client m'.subscriptions_by_client) ≡ true)
unfolding subscribe_client_to_job
subscribe_client_to_job-both client id m =
    let clients = entries id m.subscriptions_by_job_id in
    let ids = entries client m.subscriptions_by_client in
    (
      ground (
        arith,
        entries-insert id id (add client clients) m.subscriptions_by_job_id,
        has-add client client clients,
        eqb_refl id,
        eqb_refl client,
      ),
      ground (
        arith,
        entries-insert client client (add id ids) m.subscriptions_by_client,
        has-add id id ids,
        eqb_refl id,
        eqb_refl client,
      ),
    )

build_job_state_snapshot-status :
    (job : JobDoc) (state : Option WorkerState) (files warnings reviews : ℕ)
    → (build_job_state_snapshot job state files warnings reviews).status ≡ job.status
unfolding build_job_state_snapshot
build_job_state_snapshot-status job none files warnings reviews = refl
build_job_state_snapshot-status job (some state) files warnings reviews = refl

reply_subscribed-IsReply :
    (later : Records) (id : ℕ) (job : JobDoc) (fails : Bool)
    → IsReply id job fails (reply_subscribed later id job fails)
unfolding reply_subscribed
reply_subscribed-IsReply later id job true = refl
reply_subscribed-IsReply later id job false =
    (snapshot_of id later job, refl, build_job_state_snapshot-status job _ _ _ _)

subscribe_missing : (client id : ℕ) (m : Manager) → subscribe_client_to_job client id false m ≡ m
unfolding subscribe_client_to_job
subscribe_missing client id m = refl

unsubscribe_client_from_job-both :
    (client id : ℕ) (m : Manager)
    → let m' = unsubscribe_client_from_job client id m in
      (has client (entries id m'.subscriptions_by_job_id) ≡ false)
      × (has id (entries client m'.subscriptions_by_client) ≡ false)
unsubscribe_client_from_job-both client id m = (
  rw (unsubscribe-by_job_id client id m) (
      ground (
        arith,
        has-drop_subscriber client id client id m.subscriptions_by_job_id,
        eqb_refl client,
        eqb_refl id,
      )),
  ground (arith, unsubscribe-entries client id client m id, eqb_refl client, eqb_refl id),
)

subscribe_found-IsTrue :
    (r : Records) (client id : ℕ) (m : Manager) (found : Option JobDoc)
    → find_job id r ≡ found
    → IsTrue r client m (subscribe_found client id m found)
subscribe_found-IsTrue r client id m none e = subscribe_missing client id m
subscribe_found-IsTrue r client id m (some job) e = (
  subscribe_client_to_job-both client id m,
  e,
  λ later fails. reply_subscribed-IsReply later id job fails,
)

handle_subscribe-IsTrue :
    (r : Records) (read_fails : Bool) (client : ℕ) (job_id : Text) (m : Manager)
    → IsTrue r client m (handle_subscribe r read_fails client job_id m)
unfolding handle_subscribe
handle_subscribe-IsTrue r read_fails client job_id m =
    let id = r.number_of job_id in
    elim (Bool-cases (is_blank job_id)) [
      | inl b ↦ rw (b, handle_subscribe) refl
      | inr b ↦ elim (Bool-cases (is_valid_job_id job_id)) [
        | inr v ↦ rw (b, handle_subscribe) (rw v refl)
        | inl v ↦ elim (Bool-cases read_fails) [
          | inl f ↦ rw (b, handle_subscribe) (rw v (rw f refl))
          | inr f ↦
              rw (b, handle_subscribe)
                (rw v (rw f (subscribe_found-IsTrue r client id m (find_job id r) refl)))
        ]
      ]
    ]

handle_unsubscribe-IsTrue :
    (r : Records) (client : ℕ) (job_id : Text) (m : Manager)
    → IsTrue r client m (handle_unsubscribe r client job_id m)
unfolding handle_unsubscribe
handle_unsubscribe-IsTrue r client job_id m =
    let id = r.number_of job_id in
    elim (Bool-cases (is_blank job_id)) [
      | inl b ↦ rw (b, handle_unsubscribe) refl
      | inr b ↦ rw (b, handle_unsubscribe) (unsubscribe_client_from_job-both client id m)
    ]

-- Every message is handled truly. An error that is sent at once, of a malformed message or of a
-- look-up that fails, leaves all subscriptions as they were; a client that is told that it is
-- unsubscribed stands in neither table. Otherwise the client has been entered in both tables for a
-- job that was found, and what it is told, after the snapshot was awaited, is that it is subscribed,
-- with the status of that job, or the internal error if the snapshot cannot be read.
pub handle_client_message-IsTrue :
    (r : Records) (read_fails : Bool) (client : ℕ) (incoming : Incoming) (m : Manager)
    → IsTrue r client m (handle_client_message r read_fails client incoming m)
unfolding handle_client_message
handle_client_message-IsTrue r read_fails client not_json m = refl
handle_client_message-IsTrue r read_fails client unusable m = refl
handle_client_message-IsTrue r read_fails client (parsed message) m =
    elim message.action
      as (λ action. IsTrue r client m (
        handle_client_message r read_fails client (parsed (record message { action = action }))
          m)) [
            | subscribe ↦ handle_subscribe-IsTrue r read_fails client message.job_id m
            | unsubscribe ↦ handle_unsubscribe-IsTrue r client message.job_id m
            | unsupported ↦ refl
          ]
