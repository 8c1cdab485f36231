-- ===== src/Subscriptions/Manager.antt =====
-- The three tables of backend/src/websocket/subscriptionManager.js and its operations. Clients are
-- numbers; whether a socket is open and whether a job exists are arguments.
use ai_worker_platform.Common.{
  [], ◌∷◌, none, some, if◌then◌else◌, List, ℕ, Bool, or_else, filter, not, true, false,
}
use ai_worker_platform.Common.Sets.{add, discard}
use ai_worker_platform.Common.Maps.{keys, lookup, delete, insert}

pub record Manager : Type 0 where
  pub clients : List ℕ
  pub subscriptions_by_job_id : List (ℕ × List ℕ)
  pub subscriptions_by_client : List (ℕ × List ℕ)

abbrev pub no_clients : Manager
no_clients = record { clients = []; subscriptions_by_job_id = []; subscriptions_by_client = [] }

-- The entries of a set in a table; a missing set has none.
abbrev pub entries : ℕ → List (ℕ × List ℕ) → List ℕ
entries key table = or_else (lookup key table) []

-- addClient
unfoldable pub add_client : ℕ → Manager → Manager
add_client client m = record m {
  clients = add client m.clients;
  subscriptions_by_client = insert client [] m.subscriptions_by_client;
}

abbrev pub is_empty : List ℕ → Bool
is_empty [] = true
is_empty _ = false

-- Takes a client out of the subscribers of a job, and drops the set if none is left: the body of
-- the loop of removeClient, and the end of unsubscribeClientFromJob.
unfoldable pub drop_subscriber : ℕ → ℕ → List (ℕ × List ℕ) → List (ℕ × List ℕ)
drop_subscriber client job_id table = elim (lookup job_id table) [
  | none ↦ table
  | some subscribers ↦
      if is_empty (discard client subscribers)
      then delete job_id table
      else insert job_id (discard client subscribers) table
]

unfoldable pub drop_subscriptions : ℕ → List ℕ → List (ℕ × List ℕ) → List (ℕ × List ℕ)
unfolding drop_subscriber
drop_subscriptions client [] table = table
drop_subscriptions client (job_id ∷ rest) table =
    drop_subscriptions client rest (drop_subscriber client job_id table)

-- removeClient
unfoldable pub remove_client : ℕ → Manager → Manager
unfolding drop_subscriptions
remove_client client m = record {
  clients = discard client m.clients;
  subscriptions_by_job_id =
      drop_subscriptions client (entries client m.subscriptions_by_client)
        m.subscriptions_by_job_id;
  subscriptions_by_client = delete client m.subscriptions_by_client;
}

-- subscribeClientToJob; `exists` tells whether the job was found
unfoldable pub subscribe_client_to_job : ℕ → ℕ → Bool → Manager → Manager
subscribe_client_to_job client job_id exists m = if not exists then m else record m {
  subscriptions_by_job_id =
      insert job_id (add client (entries job_id m.subscriptions_by_job_id))
        m.subscriptions_by_job_id;
  subscriptions_by_client =
      insert client (add job_id (entries client m.subscriptions_by_client))
        m.subscriptions_by_client;
}

-- unsubscribeClientFromJob
unfoldable pub unsubscribe_client_from_job : ℕ → ℕ → Manager → Manager
unfolding drop_subscriber
unsubscribe_client_from_job client job_id m = record m {
  subscriptions_by_client = elim (lookup client m.subscriptions_by_client) [
    | none ↦ m.subscriptions_by_client
    | some job_ids ↦ insert client (discard job_id job_ids) m.subscriptions_by_client
  ];
  subscriptions_by_job_id = drop_subscriber client job_id m.subscriptions_by_job_id;
}

-- publishToJob: the clients to which the message is sent, in order; it returns their number
unfoldable pub publish_to_job : (ℕ → Bool) → ℕ → Manager → List ℕ
publish_to_job is_client_open job_id m =
    filter is_client_open (entries job_id m.subscriptions_by_job_id)

-- getSubscribedJobIds
unfoldable pub get_subscribed_job_ids : Manager → List ℕ
get_subscribed_job_ids m = keys m.subscriptions_by_job_id
