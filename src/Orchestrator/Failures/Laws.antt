-- ===== src/Orchestrator/Failures/Laws.antt =====
-- What the handlers of `Orchestrator.Failures` report.
use leftovers.Base.{Option-cases, ◌≡◌, inl, inr, none, some}
use leftovers.Models.{RunOutcome}
use leftovers.Models.Stages.{failed, cleanup_pending, FailureCode, publish_partial, cleanup_failed}
use leftovers.Orchestrator.Exec.{
  Message, Raised, run_abort, budget_error, state_policy_error, other, Flow, raised, State,
}
use leftovers.Orchestrator.Services.{Services}
use leftovers.Orchestrator.Failures.{mark_cleanup_pending}

module _ {Float W : Type 0} (services : Services Float W) where
  -- What becomes of each exception while a publication may have begun or has happened.
  abbrev pub IsAnswered : Raised → State Float W → Flow (Unit {0}) × State Float W → Type 0
  IsAnswered (run_abort code text to) s after =
      (after.1.outcome.stage ≡ to) × (after.1.outcome.failure_code ≡ some code)
  IsAnswered (budget_error text) s after = after ≡ (raised (budget_error text), s)
  IsAnswered (state_policy_error text) s after = after ≡ (raised (state_policy_error text), s)
  IsAnswered (other text) s after = after ≡ (raised (other text), s)
  IsAnswered _ s after =
      (after.1.outcome.stage ≡ failed) × (after.1.outcome.failure_code ≡ some publish_partial)

pub mark_cleanup_pending-code :
    {Float : Type 0} (message : Message) (outcome : RunOutcome Float Message) (code : FailureCode)
    → outcome.failure_code ≡ some code
    → (mark_cleanup_pending message outcome).failure_code ≡ some code
unfolding mark_cleanup_pending
mark_cleanup_pending-code message outcome code h = rw h

pub mark_cleanup_pending-none :
    {Float : Type 0} (message : Message) (outcome : RunOutcome Float Message)
    → outcome.failure_code ≡ none
    → (mark_cleanup_pending message outcome).failure_code ≡ some cleanup_failed
unfolding mark_cleanup_pending
mark_cleanup_pending-none message outcome h = rw h

pub mark_cleanup_pending-stage :
    {Float : Type 0} (message : Message) (outcome : RunOutcome Float Message)
    → (mark_cleanup_pending message outcome).stage ≡ cleanup_pending
unfolding mark_cleanup_pending
mark_cleanup_pending-stage message outcome = elim (Option-cases outcome.failure_code) [
  | inl h ↦ rw h
  | inr (code, h) ↦ rw h
]
