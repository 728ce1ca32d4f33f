-- ===== src/Models/Stages.antt =====
-- The two enumerations of src/leftovers/models.py, with the values that `StrEnum` gives them.
use leftovers.Base.{String, ◌≡◌, refl, false}
use leftovers.Base.Text.{str_eq}

pub data RunStage : Type 0 where
  scheduled budget_check discovering scoring selected preflight sandbox_ready : RunStage
  planning implementing verifying reviewing approved awaiting_approval : RunStage
  publishing pr_open cleaning complete deferred skipped failed aborted : RunStage
  cleanup_pending : RunStage

pub data FailureCode : Type 0 where
  budget_exhausted policy_denied no_candidate no_reproduction test_failed : FailureCode
  review_rejected upstream_moved rate_limited auth_failed publish_partial : FailureCode
  cleanup_failed runtime_unavailable agent_failed invalid_output : FailureCode

-- `stage.value`.
abbrev pub value : RunStage → String
value scheduled = "scheduled"
value budget_check = "budget_check"
value discovering = "discovering"
value scoring = "scoring"
value selected = "selected"
value preflight = "preflight"
value sandbox_ready = "sandbox_ready"
value planning = "planning"
value implementing = "implementing"
value verifying = "verifying"
value reviewing = "reviewing"
value approved = "approved"
value awaiting_approval = "awaiting_approval"
value publishing = "publishing"
value pr_open = "pr_open"
value cleaning = "cleaning"
value complete = "complete"
value deferred = "deferred"
value skipped = "skipped"
value failed = "failed"
value aborted = "aborted"
value cleanup_pending = "cleanup_pending"

pub RunStage-discrete : Discrete RunStage
RunStage-discrete = hlevel

-- No stage of a run is spelled like the status that would give its tokens back.
pub value-ne-released : (stage : RunStage) → str_eq (value stage) "released" ≡ false
value-ne-released scheduled = refl
value-ne-released _ = refl
