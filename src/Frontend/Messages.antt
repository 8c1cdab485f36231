-- ===== src/Frontend/Messages.antt =====
-- The messages that reach the browser about a job, and what is shown for them: `displayMessage` of
-- frontend/src/utils/statusUtils.js. A missing or empty text is `none`.
use ai_worker_platform.Common.{ℕ, Bool, Option, none, some, or_option, List, if◌then◌else◌}
use ai_worker_platform.Job.Status.{Status}

-- A message about a job, from the WebSocket server.
pub record Message : Type 0 where
  pub job_id : ℕ
  pub status : Option Status
  pub phase : Option ℕ
  pub current_phase : Option ℕ
  pub progress : Option ℕ
  pub updated_at : Option ℕ
  pub timestamp : Option ℕ
  pub ai_message : Option ℕ
  pub llm_success : Bool
  pub text : Option ℕ
  pub event : Option ℕ

-- What is shown for a message.
pub data DisplayText : Type 0 where
  words : ℕ → DisplayText
  status_name : Status → DisplayText
  status_updated : DisplayText

-- message.event || message.phase || message.status || 'Status updated.'
abbrev pub fallback_text : Option ℕ → Option Status → DisplayText
fallback_text (some w) status = words w
fallback_text none (some s) = status_name s
fallback_text none none = status_updated

-- displayMessage
unfoldable pub display_message : Message → DisplayText
display_message m = elim (if m.llm_success then m.ai_message else none) [
  | some w ↦ words w
  | none ↦ elim m.text [
    | some w ↦ words w
    | none ↦ fallback_text (or_option m.event m.phase) m.status
  ]
]

abbrev pub EventItem : Type 0
EventItem = Message × DisplayText

-- The state in a SUBSCRIBED message.
pub record Snapshot : Type 0 where
  pub status : Option Status
  pub progress : Option ℕ
  pub current_phase : Option ℕ
  pub updated_at : Option ℕ
  pub events : List Message

abbrev pub show_event : Message → EventItem
show_event m = (m, display_message m)
