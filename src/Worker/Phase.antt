-- ===== src/Worker/Phase.antt =====
-- PHASES of backend/src/services/workerStateService.js. A skill may report a phase of its own
-- (`parseProgressLine` of backend/src/skills/genericSkillRunner.js), which is a text.
use ai_worker_platform.Common.{String, Bool, true, false}

pub data Phase : Type 0 where
  queued validation_started validation_completed filtering_started : Phase
  filtering_completed asset_loading_started asset_loading_completed generation_started : Phase
  generation_completed output_collection_started output_collection_completed : Phase
  cancelling completed failed cancelled : Phase
  reported : String → Phase

unfoldable pub name : Phase → String
name queued = "QUEUED"
name validation_started = "VALIDATION_STARTED"
name validation_completed = "VALIDATION_COMPLETED"
name filtering_started = "FILTERING_STARTED"
name filtering_completed = "FILTERING_COMPLETED"
name asset_loading_started = "ASSET_LOADING_STARTED"
name asset_loading_completed = "ASSET_LOADING_COMPLETED"
name generation_started = "GENERATION_STARTED"
name generation_completed = "GENERATION_COMPLETED"
name output_collection_started = "OUTPUT_COLLECTION_STARTED"
name output_collection_completed = "OUTPUT_COLLECTION_COMPLETED"
name cancelling = "CANCELLING"
name completed = "COMPLETED"
name failed = "FAILED"
name cancelled = "CANCELLED"
name (reported text) = text

-- `phase === PHASES.QUEUED`
abbrev pub is_queued_phase : Phase → Bool
is_queued_phase queued = true
is_queued_phase _ = false
