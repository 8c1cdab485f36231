-- ===== src/Examples/Clients.antt =====
-- Subscriptions of two clients.
-- Client 1 subscribes to job 9, client 2 comes and goes.
use ai_worker_platform.Subscriptions.Server.{
  Action, Message, Records, Handled, parsed, handle_client_message,
}
use ai_worker_platform.Common.{List, true, ◌≡◌, ◌&&◌, ◌∷◌, [], refl, false}
use ai_worker_platform.Subscriptions.Manager.{
  add_client, entries, publish_to_job, remove_client, subscribe_client_to_job, no_clients, Manager,
}
use ai_worker_platform.Common.Sets.{has}
use ai_worker_platform.Subscriptions.Consistency.{
  AllNew, Op, run, connects, publish_reaches, subscribes, disconnects,
}
use ai_worker_platform.Subscriptions.Replies.{IsTrue, handle_client_message-IsTrue}
use ai_worker_platform.Examples.Data.{queued_job}

abbrev session : List Op
session = connects 1 ∷ subscribes 1 9 true ∷ connects 2 ∷ subscribes 2 9 true ∷ disconnects 2 ∷ []

session_new : AllNew session no_clients
unfolding add_client remove_client subscribe_client_to_job
session_new = (λ j. refl, (tt, (λ j. refl, (tt, (tt, tt)))))

publish_reaches_example :
    has 1 (publish_to_job (λ c. true) 9 (run session no_clients))
    ≡ has 9 (entries 1 (run session no_clients).subscriptions_by_client) && true
publish_reaches_example = publish_reaches (λ c. true) session 1 9 session_new

abbrev records : Records
records = record {
  number_of = λ s. 9;
  jobs = (9, queued_job 9) ∷ [];
  states = [];
  counts = λ id. (0, 0, 0);
}

-- "PR-1"
abbrev message : Message
message = record { action = Action.subscribe; job_id = b'P' ∷ b'R' ∷ b'-' ∷ b'1' ∷ [] }

abbrev reply : Manager × Handled
reply = handle_client_message records false 3 (parsed message) (run session no_clients)

handle_client_message-IsTrue_example : IsTrue records 3 (run session no_clients) reply
handle_client_message-IsTrue_example =
    handle_client_message-IsTrue records false 3 (parsed message) (run session no_clients)
