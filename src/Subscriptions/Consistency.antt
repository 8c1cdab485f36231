-- ===== src/Subscriptions/Consistency.antt =====
-- The two tables of subscriptions tell the same.
use ai_worker_platform.Common.{
  ◌≡◌, refl, [], ◌∷◌, if◌then◌else◌, ℕ, List, true, ◌==◌, arith, false, ◌&&◌, Option-cases, inl,
  eqb→eq, inr, Bool, filter, ◌∙◌, ap, eqb_refl,
}
use ai_worker_platform.Subscriptions.Manager.{
  drop_subscriber, drop_subscriptions, Manager, entries, is_empty, add_client, publish_to_job,
  subscribe_client_to_job, unsubscribe_client_from_job, no_clients, remove_client,
}
use ai_worker_platform.Common.Sets.{has, discard, has-discard, add, has-add}
use ai_worker_platform.Common.Maps.{delete, insert, lookup-delete, lookup-insert, lookup}

-- A client stands among the subscribers of a job exactly if the job stands among the client's.
abbrev pub Agree : ℕ → ℕ → Manager → Type 0
Agree client job_id m =
    has client (entries job_id m.subscriptions_by_job_id)
    ≡ has job_id (entries client m.subscriptions_by_client)

pub entries-insert :
    (k j : ℕ) (v : List ℕ) (table : List (ℕ × List ℕ))
    → entries j (insert k v table) ≡ (if k == j then v else entries j table)
entries-insert k j v table = ground (arith, lookup-insert k j v table)

entries-delete :
    (k j : ℕ) (table : List (ℕ × List ℕ))
    → entries j (delete k table) ≡ (if k == j then [] else entries j table)
entries-delete k j table = ground (arith, lookup-delete k j table)

is_empty-has : (a : ℕ) (xs : List ℕ) → is_empty xs ≡ true → has a xs ≡ false
is_empty-has a [] h = refl
is_empty-has a (x ∷ xs) h = cc

pub has-drop_subscriber :
    (client job_id c j : ℕ) (table : List (ℕ × List ℕ))
    → has c (entries j (drop_subscriber client job_id table))
      ≡ (if (client == c) && (job_id == j) then false else has c (entries j table))
unfolding drop_subscriber
has-drop_subscriber client job_id c j table = elim (Option-cases (lookup job_id table)) [
  | inl e ↦ rw (e, drop_subscriber) (ground (arith, e, eqb→eq job_id j))
  | inr (subscribers, e) ↦
      rw (e, drop_subscriber)
        (ground (
          arith,
          e,
          eqb→eq job_id j,
          entries-insert job_id j (discard client subscribers) table,
          entries-delete job_id j table,
          has-discard c client subscribers,
          is_empty-has c (discard client subscribers),
        ))
]

has-drop_subscriptions :
    (client c j : ℕ) (job_ids : List ℕ) (table : List (ℕ × List ℕ))
    → has c (entries j (drop_subscriptions client job_ids table))
      ≡ (if (client == c) && has j job_ids then false else has c (entries j table))
unfolding drop_subscriptions
has-drop_subscriptions client c j [] table = ground arith
has-drop_subscriptions client c j (job_id ∷ rest) table = ground (
  arith,
  has-drop_subscriptions client c j rest (drop_subscriber client job_id table),
  has-drop_subscriber client job_id c j table,
)

pub data Op : Type 0 where
  connects disconnects : ℕ → Op
  subscribes : ℕ → ℕ → Bool → Op
  unsubscribes : ℕ → ℕ → Op

abbrev pub apply : Op → Manager → Manager
apply (connects client) m = add_client client m
apply (disconnects client) m = remove_client client m
apply (subscribes client job_id exists) m = subscribe_client_to_job client job_id exists m
apply (unsubscribes client job_id) m = unsubscribe_client_from_job client job_id m

-- A connection is a new object, which has no subscriptions yet.
abbrev pub IsNew : Op → Manager → Type 0
IsNew (connects client) m =
    (job_id : ℕ) → has job_id (entries client m.subscriptions_by_client) ≡ false
IsNew _ m = Unit

unfoldable pub run : List Op → Manager → Manager
run [] m = m
run (op ∷ rest) m = run rest (apply op m)

abbrev pub AllNew : List Op → Manager → Type 0
AllNew [] m = Unit
AllNew (op ∷ rest) m = IsNew op m × AllNew rest (apply op m)

pub unsubscribe-entries :
    (client job_id c : ℕ) (m : Manager) (j : ℕ)
    → has j (entries c (unsubscribe_client_from_job client job_id m).subscriptions_by_client) ≡ (
        if (client == c) && (job_id == j)
        then false
        else has j (entries c m.subscriptions_by_client))
unfolding unsubscribe_client_from_job
unsubscribe-entries client job_id c m j =
    elim (Option-cases (lookup client m.subscriptions_by_client)) [
      | inl e ↦ rw (e, unsubscribe_client_from_job) (ground (arith, e, eqb→eq client c))
      | inr (job_ids, e) ↦
          rw (e, unsubscribe_client_from_job)
            (ground (
              arith,
              e,
              eqb→eq client c,
              entries-insert client c (discard job_id job_ids) m.subscriptions_by_client,
              has-discard j job_id job_ids,
            ))
    ]

pub unsubscribe-by_job_id :
    (client job_id : ℕ) (m : Manager)
    → (unsubscribe_client_from_job client job_id m).subscriptions_by_job_id
      ≡ drop_subscriber client job_id m.subscriptions_by_job_id
unfolding unsubscribe_client_from_job
unsubscribe-by_job_id client job_id m = refl

apply-Agree :
    (op : Op) (m : Manager) (client job_id : ℕ)
    → IsNew op m
    → ((c j : ℕ) → Agree c j m)
    → Agree client job_id (apply op m)
unfolding add_client remove_client subscribe_client_to_job
apply-Agree (connects c) m client job_id n h = ground (
  arith,
  entries-insert c client [] m.subscriptions_by_client,
  h client job_id,
  n job_id,
  eqb→eq c client,
)
apply-Agree (disconnects c) m client job_id n h = ground (
  arith,
  has-drop_subscriptions c client job_id (entries c m.subscriptions_by_client)
      m.subscriptions_by_job_id,
  entries-delete c client m.subscriptions_by_client,
  h client job_id,
  eqb→eq c client,
)
apply-Agree (subscribes c j exists) m client job_id n h = ground (
  arith,
  entries-insert j job_id (add c (entries j m.subscriptions_by_job_id)) m.subscriptions_by_job_id,
  entries-insert c client (add j (entries c m.subscriptions_by_client)) m.subscriptions_by_client,
  has-add client c (entries j m.subscriptions_by_job_id),
  has-add job_id j (entries c m.subscriptions_by_client),
  h client job_id,
  eqb→eq c client,
  eqb→eq j job_id,
)
apply-Agree (unsubscribes c j) m client job_id n h = ground (
  arith,
  unsubscribe-entries c j client m job_id,
  unsubscribe-by_job_id c j m,
  has-drop_subscriber c j client job_id m.subscriptions_by_job_id,
  h client job_id,
)

run-Agree :
    (ops : List Op) (m : Manager)
    → ((c j : ℕ) → Agree c j m)
    → AllNew ops m
    → (c j : ℕ) → Agree c j (run ops m)
unfolding run
run-Agree [] m h n c j = h c j
run-Agree (op ∷ rest) m h n c j =
    run-Agree rest (apply op m) (λ c j. apply-Agree op m c j n.0 h) n.1 c j

has-filter : (p : ℕ → Bool) (a : ℕ) (xs : List ℕ) → has a (filter p xs) ≡ has a xs && p a
has-filter p a [] = refl
has-filter p a (x ∷ xs) = ground (arith, has-filter p a xs, eqb→eq x a)

-- After any history of connections, disconnections, subscriptions and their ends, in which each
-- connection is new, a message for a job is sent to exactly the open clients that have the job
-- among their subscriptions.
pub publish_reaches :
    (is_client_open : ℕ → Bool) (ops : List Op) (client job_id : ℕ)
    → AllNew ops no_clients
    → let m = run ops no_clients in
      has client (publish_to_job is_client_open job_id m)
      ≡ has job_id (entries client m.subscriptions_by_client) && is_client_open client
unfolding publish_to_job
publish_reaches is_client_open ops client job_id n =
    let agree = run-Agree ops no_clients (λ c j. refl) n client job_id in
    has-filter is_client_open client _ ∙ ap (λ b. b && is_client_open client) agree

-- A client that has disconnected is sent nothing more, unless it subscribes again.
pub disconnected_unreached :
    (is_client_open : ℕ → Bool) (ops : List Op) (client job_id : ℕ)
    → AllNew ops no_clients
    → has client (publish_to_job is_client_open job_id (remove_client client (run ops no_clients)))
      ≡ false
unfolding publish_to_job remove_client
disconnected_unreached is_client_open ops client job_id n =
    let m = run ops no_clients in
    let agree = run-Agree ops no_clients (λ c j. refl) n client job_id in
    let gone =
      has-drop_subscriptions client client job_id (entries client m.subscriptions_by_client)
        m.subscriptions_by_job_id in
    has-filter is_client_open client _ ∙ ground (arith, gone, agree, eqb_refl client)

-- A subscription whose client disconnects while the job is looked up is entered all the same, and
-- stays: the client was taken out of the tables before.
pub late_subscription_stays :
    (client job_id : ℕ) (m : Manager)
    → has client (
        entries job_id
          (subscribe_client_to_job client job_id true
            (remove_client client m)).subscriptions_by_job_id)
      ≡ true
unfolding subscribe_client_to_job
late_subscription_stays client job_id m =
    let table = (remove_client client m).subscriptions_by_job_id in
    ground (
      arith,
      entries-insert job_id job_id (add client (entries job_id table)) table,
      has-add client client (entries job_id table),
      eqb_refl job_id,
      eqb_refl client,
    )
