-- ===== src/Frontend/Notices.antt =====
-- The notices of the job panel: `showWorkerNotification` and `dismissErrorMessage` of
-- frontend/src/views/shared/workerRuntime.js and `scheduleNotificationDismiss` of
-- frontend/src/utils/workerNotificationUtils.js. The clock's readings are arguments.
use ai_worker_platform.Common.{
  ℕ, Bool, true, false, Option, none, some, List, [], ◌∷◌, ◌+◌, ◌≤◌, ◌<◌, ◌&&◌, ◌≡◌, if◌then◌else◌,
  leb, is_some, same_id, arith, eqb_refl,
}

-- The fields of the mixin; `timer` holds the notice for which it was set, and `pending` whether the
-- browser has yet to call it back.
pub record Notices : Type 0 where
  pub message : Option ℕ
  pub notification_id : ℕ
  pub expires_at : ℕ
  pub timer : Option ℕ
  pub pending : Bool

-- WORKER_NOTIFICATION_TIMEOUT_MS
abbrev pub timeout_ms : ℕ
timeout_ms = 6000

-- dismissErrorMessage, with clearTransientErrorTimer
unfoldable pub dismiss_error_message : Notices → Notices
dismiss_error_message n = record n { message = none; expires_at = 0; timer = none; pending = false }

-- showWorkerNotification, with scheduleNotificationDismiss
unfoldable pub show_notification : ℕ → Option ℕ → Notices → Notices
unfolding dismiss_error_message
show_notification now none n = dismiss_error_message n
show_notification now (some message) n =
    if same_id n.message (some message) && is_some n.timer then n else record {
      message = some message;
      notification_id = n.notification_id + 1;
      expires_at = now + timeout_ms;
      timer = some (n.notification_id + 1);
      pending = true;
    }

-- The callback of the timer, which compares the clock again.
unfoldable pub fire : ℕ → Notices → Notices
unfolding dismiss_error_message
fire now n =
    let spent : Notices = record n { pending = false } in
    if n.pending
    then if leb n.expires_at now && same_id n.timer (some n.notification_id)
      then dismiss_error_message spent
      else spent
    else n

-- What may happen to the notices: the same one is shown again, or the browser's timer fires.
pub data Moment : Type 0 where
  shown fired : ℕ → Moment

unfoldable pub pass : ℕ → List Moment → Notices → Notices
unfolding show_notification fire
pass message [] n = n
pass message (shown now ∷ later) n = pass message later (show_notification now (some message) n)
pass message (fired now ∷ later) n = pass message later (fire now n)

-- A notice that is not already on the screen is shown, in place of any other, and goes when its own
-- timer fires six seconds later or after that.
pub fire-show_notification :
    (now later message : ℕ) (n : Notices)
    → same_id n.message (some message) ≡ false
    → now + timeout_ms ≤ later
    → ((show_notification now (some message) n).message ≡ some message)
      × ((fire later (show_notification now (some message) n)).message ≡ none)
      × ((fire later (show_notification now (some message) n)).timer ≡ none)
unfolding show_notification fire
fire-show_notification now later message n h le = ground arith

-- On the screen, with a timer that the browser has called back already.
record IsStuck (message : ℕ) (n : Notices) : Type 0 where
  on_screen : n.message ≡ some message
  has_timer : is_some n.timer ≡ true
  spent : n.pending ≡ false

spent_early :
    (now early message : ℕ) (n : Notices)
    → same_id n.message (some message) ≡ false
    → early < now + timeout_ms
    → IsStuck message (fire early (show_notification now (some message) n))
unfolding fire show_notification
spent_early now early message n h lt = ground arith

stays :
    {message : ℕ} (moments : List Moment) (n : Notices)
    → IsStuck message n
    → (pass message moments n).message ≡ some message
unfolding pass
stays [] n s = s.on_screen
stays {message} (shown now ∷ later) n s =
    stays later (show_notification now (some message) n) (ground (arith, eqb_refl message))
stays {message} (fired now ∷ later) n s = stays later (fire now n) (ground arith)

-- Where the clock reads less than six seconds more when the timer fires, the notice stays: whatever
-- is shown or fired after that, as long as it is the same notice, it is not taken away.
pub pass_stuck :
    (now early message : ℕ) (moments : List Moment) (n : Notices)
    → same_id n.message (some message) ≡ false
    → early < now + timeout_ms
    → (pass message moments (fire early (show_notification now (some message) n))).message
      ≡ some message
pass_stuck now early message moments n h lt = stays moments _ (spent_early now early message n h lt)
