-- ===== src/Frontend/Reconnecting.antt =====
-- When the browser's client opens a socket: after `close` of
-- frontend/src/services/websocketClient.js, after a loss, and after a second `connect`.
use ai_worker_platform.Common.{
  ℕ, true, false, none, some, List, [], ◌∷◌, ◌≡◌, arith, if◌then◌else◌, Bool-cases, Option-cases,
  inl, inr, ◌==◌, ◌&&◌, is_some, length, refl, ◌<◌, ◌+◌, ◌≤◌,
}
use ai_worker_platform.Frontend.Socket.{
  Client, initial, close, connect, react, react_all, BrowserEvent, opened, ended, failed,
  timer_fired,
}
use ai_worker_platform.Common.Sets.{has, has-push, push, remove}

-- The user has closed the client, and it has made no socket since.
pub record IsClosed (created : ℕ) (sent : List (ℕ × ℕ)) (c : Client) : Type 0 where
  pub closed : c.closed_by_user ≡ true
  pub no_timer : c.reconnect_timer ≡ false
  pub no_socket : c.socket ≡ none
  pub none_created : c.created ≡ created
  pub none_sent : c.sent ≡ sent

close-IsClosed : (c : Client) → IsClosed c.created c.sent (close c)
unfolding close
close-IsClosed c = ground arith

react-IsClosed :
    (e : BrowserEvent) (created : ℕ) (sent : List (ℕ × ℕ)) (c : Client)
    → IsClosed created sent c
    → IsClosed created sent (react e c)
unfolding react
react-IsClosed e created sent c p = ground arith

react_all-IsClosed :
    (es : List BrowserEvent) (created : ℕ) (sent : List (ℕ × ℕ)) (c : Client)
    → IsClosed created sent c
    → IsClosed created sent (react_all es c)
unfolding react_all
react_all-IsClosed [] created sent c p = p
react_all-IsClosed (e ∷ es) created sent c p =
    react_all-IsClosed es created sent (react e c) (react-IsClosed e created sent c p)

-- Once the user has closed the client, nothing that the browser does makes it open a socket,
-- start its timer or send a subscription.
pub react_all-close :
    (es : List BrowserEvent) (c : Client) → IsClosed c.created c.sent (react_all es (close c))
react_all-close es c = react_all-IsClosed es c.created c.sent (close c) (close-IsClosed c)

-- No socket is alive; or the client's own is the only one, the timer does not run and no `onclose`
-- is to come.
pub data AtMostOne (c : Client) : Type 0 where
  without :
      c.alive ≡ []
      → (if c.closed_by_user then false else c.reconnect_timer) ≡ c.reconnect_timer
      → (c.closed_by_user ≡ false → c.closing ≡ [])
      → AtMostOne c
  with_own :
      (s : ℕ)
      → c.alive ≡ s ∷ []
      → c.socket ≡ some s
      → c.reconnect_timer ≡ false
      → c.closed_by_user ≡ false
      → c.closing ≡ []
      → AtMostOne c

-- What the page does, and the browser: `connect` only when no socket is left.
pub data Step (c : Client) : Client → Type 0 where
  connects : (j : ℕ) → c.alive ≡ [] → c.closing ≡ [] → Step c (connect j c)
  closes : Step c (close c)
  reacts : (e : BrowserEvent) → Step c (react e c)

pub data Run : Client → Type 0 where
  start : Run initial
  next : {c d : Client} → Run c → Step c d → Run d

connect-AtMostOne : (j : ℕ) (c : Client) → c.alive ≡ [] → c.closing ≡ [] → AtMostOne (connect j c)
unfolding connect
connect-AtMostOne j c a e =
    with_own c.created (ground arith) (ground arith) (ground arith) (ground arith) (ground arith)

close-AtMostOne : (c : Client) → AtMostOne c → AtMostOne (close c)
unfolding close
close-AtMostOne c (without a t e) = without (ground arith) (ground arith) (ground arith)
close-AtMostOne c (with_own s a o t n e) = without (ground arith) (ground arith) (ground arith)

react-AtMostOne : (e : BrowserEvent) (c : Client) → AtMostOne c → AtMostOne (react e c)
unfolding react
react-AtMostOne (opened i) c (without a t e) =
    without (ground arith) (ground arith) (λ h. ground (arith, e (ground arith)))
react-AtMostOne (opened i) c (with_own s a o t n e) =
    with_own s (ground arith) (ground arith) (ground arith) (ground arith) (ground arith)
react-AtMostOne (ended i) c (without a t e) =
    without (ground arith) (ground (arith, Bool-cases c.closed_by_user, Option-cases c.job_id))
      (λ h. elim (Bool-cases c.closed_by_user) [
        | inl y ↦ ground arith
        | inr n ↦ ground (arith, e n)
      ])
react-AtMostOne (ended i) c (with_own s a o t n e) = elim (Bool-cases (s == i)) [
  | inl same ↦ without (ground arith) (ground arith) (λ h. ground arith)
  | inr other ↦
      with_own s (ground arith) (ground arith) (ground arith) (ground arith) (ground arith)
]
react-AtMostOne failed c (without a t e) =
    without (ground arith) (ground arith) (λ h. e (ground arith))
react-AtMostOne failed c (with_own s a o t n e) =
    with_own s (ground arith) (ground arith) (ground arith) (ground arith) (ground arith)
react-AtMostOne timer_fired c (without a t e) =
    elim (Bool-cases (c.reconnect_timer && is_some c.job_id)) [
      | inl fires ↦
          with_own c.created (ground arith) (ground arith) (ground arith) (ground arith)
            (ground (arith, e (ground arith)))
      | inr stays ↦ without (ground arith) (ground arith) (λ h. ground (arith, e (ground arith)))
    ]
react-AtMostOne timer_fired c (with_own s a o t n e) =
    with_own s (ground arith) (ground arith) (ground arith) (ground arith) (ground arith)

Run-AtMostOne : {c : Client} → Run c → AtMostOne c
Run-AtMostOne start = unfold initial in without refl refl (λ h. refl)
Run-AtMostOne (next {c} r (connects j a e)) = connect-AtMostOne j c a e
Run-AtMostOne (next {c} r closes) = close-AtMostOne c (Run-AtMostOne r)
Run-AtMostOne (next {c} r (reacts e)) = react-AtMostOne e c (Run-AtMostOne r)

-- However the page and the browser act, as long as the page connects only when no socket of before
-- is left, at most one socket is alive; and one that is alive is the client's own.
pub Run-keeps_one :
    {c : Client}
    → Run c
    → (length c.alive ≤ 1) × ((s : ℕ) → has s c.alive ≡ true → c.socket ≡ some s)
Run-keeps_one {c} r = single (Run-AtMostOne r)
  where
    single :
        {d : Client}
        → AtMostOne d
        → (length d.alive ≤ 1) × ((s : ℕ) → has s d.alive ≡ true → d.socket ≡ some s)
    single {d} (without a t e) = (rw a (omega arith), λ s h. absurd (ground arith))
    single {d} (with_own i a o t n e) = (rw a (omega arith), λ s h. ground arith)

-- A lost socket is replaced: when the only socket ends, the timer fires and the new socket opens,
-- the new one is subscribed to the same job.
pub react_all_resubscribes :
    (c : Client) (s j : ℕ)
    → c.alive ≡ s ∷ []
    → c.socket ≡ some s
    → c.job_id ≡ some j
    → c.closed_by_user ≡ false
    → c.reconnect_timer ≡ false
    → let after = react_all (ended s ∷ timer_fired ∷ opened c.created ∷ []) c in
      (after.socket ≡ some c.created)
      × (after.alive ≡ c.created ∷ [])
      × (after.sent ≡ (c.created, j) ∷ c.sent)
unfolding react_all react
react_all_resubscribes c s j a o jb n t =
    ground (arith, has-push c.created c.created (remove s c.ready))

-- A second `connect` while one socket is alive, and no other is about to close, leaves two: the old
-- socket's `onclose` comes when the client is no longer closed, so that the timer opens one more,
-- on the same job.
pub connect_again :
    (c : Client) (s k : ℕ)
    → c.alive ≡ s ∷ []
    → c.socket ≡ some s
    → s < c.created
    → c.closing ≡ []
    → let after =
        react_all
          (opened c.created ∷ ended s ∷ timer_fired ∷ opened (c.created + 1) ∷ [])
          (connect k c) in
      (after.alive ≡ c.created ∷ (c.created + 1) ∷ [])
      × (after.sent ≡ (c.created + 1, k) ∷ (c.created, k) ∷ c.sent)
unfolding connect react_all react
connect_again c s k a o lt e =
    let r = push c.created (remove s c.ready) in
    ground (
      arith,
      has-push c.created c.created (remove s c.ready),
      has-push (c.created + 1) (c.created + 1) (remove s r),
    )
