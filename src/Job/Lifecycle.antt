-- ===== src/Job/Lifecycle.antt =====
-- How the classes of statuses divide the statuses.
use ai_worker_platform.Common.{◌≡◌, not, arith}
use ai_worker_platform.Job.Status.{Status, is_active, is_terminal}

-- Every status is active or terminal, and none is both.
pub is_active-not_terminal : (s : Status) → is_active s ≡ not (is_terminal s)
is_active-not_terminal s = ground arith
