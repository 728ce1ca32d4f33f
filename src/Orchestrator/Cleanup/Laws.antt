-- ===== src/Orchestrator/Cleanup/Laws.antt =====
-- What the clean-up of `Orchestrator.Cleanup` makes of an outcome.
use leftovers.Orchestrator.Failures.Laws.{
  mark_cleanup_pending-code, mark_cleanup_pending-none, mark_cleanup_pending-stage,
}
use leftovers.Base.{String, ◌≡◌, refl, ◌↔◌, ◌⊎◌, inl, inr, Bool, true, false, ◌&&◌, none, some}
use leftovers.Models.{RunOutcome}
use leftovers.Models.Stages.{
  RunStage, pr_open, complete, cleanup_pending, FailureCode, cleanup_failed,
}
use leftovers.Orchestrator.Exec.{Message, unproven}
use leftovers.Orchestrator.Failures.{mark_cleanup_pending}
use leftovers.Orchestrator.Cleanup.{close_publication, settle}

stage_of_pending : (stage : RunStage) → stage ≡ cleanup_pending → ¬ (stage ≡ complete)
stage_of_pending stage h k = cc

closed_stage :
    {Float : Type 0} (before : RunStage) (outcome : RunOutcome Float Message)
    → outcome.stage ≡ before
    → ((close_publication before outcome).stage ≡ complete)
      ↔ ((before ≡ pr_open) ⊎ (before ≡ complete))
closed_stage pr_open outcome h = (λ _. inl refl, λ _. refl)
closed_stage complete outcome h = (λ _. inr refl, λ _. h)
closed_stage _ outcome h = (λ k. cc, λ k. elim k [ inl e ↦ cc | inr e ↦ cc ])

module _ {Float : Type 0} where
  closed_code :
      (before : RunStage) (outcome : RunOutcome Float Message) (code : FailureCode)
      → outcome.failure_code ≡ some code
      → (close_publication before outcome).failure_code ≡ some code
  closed_code pr_open outcome code h = h
  closed_code _ outcome code h = h

  pending_laws :
      (message : Message) (outcome : RunOutcome Float Message)
      → let settled = mark_cleanup_pending message outcome in
        ((code : FailureCode) → outcome.failure_code ≡ some code → settled.failure_code ≡ some code)
        × (false ≡ false
            → (settled.stage ≡ cleanup_pending)
              × (outcome.failure_code ≡ none → settled.failure_code ≡ some cleanup_failed))
  pending_laws message outcome = (
    mark_cleanup_pending-code message outcome,
    λ _. (mark_cleanup_pending-stage message outcome, mark_cleanup_pending-none message outcome),
  )

  -- What `settle` makes of the two answers alone: `complete` exactly if both are true and the stage
  -- before was `pr_open` or `complete`.
  pub settle_complete_iff :
      (containers workspace : Bool) (error : String) (outcome : RunOutcome Float Message)
      → ((settle containers workspace error outcome.stage outcome).stage ≡ complete) ↔ (
          (containers && workspace ≡ true)
          × ((outcome.stage ≡ pr_open) ⊎ (outcome.stage ≡ complete)))
  unfolding settle
  settle_complete_iff true true error outcome =
      let closed = closed_stage outcome.stage outcome refl in
      (λ h. (refl, closed.0 h), λ h. closed.1 h.1)
  settle_complete_iff true false error outcome =
      let pending = mark_cleanup_pending-stage (unproven true false error) outcome in
      (λ h. cc, λ h. cc (h.0))
  settle_complete_iff false workspace error outcome =
      let pending = mark_cleanup_pending-stage (unproven false workspace error) outcome in
      (λ h. cc, λ h. cc (h.0))

  -- The clean-up hides no failure: a failure code from before is kept, and where a proof is missing
  -- the outcome waits for a clean-up and has a failure code, `cleanup_failed` if there was none.
  pub settle_keeps_failure :
      (containers workspace : Bool) (error : String) (outcome : RunOutcome Float Message)
      → let settled = settle containers workspace error outcome.stage outcome in
        ((code : FailureCode) → outcome.failure_code ≡ some code → settled.failure_code ≡ some code)
        × (containers && workspace ≡ false
            → (settled.stage ≡ cleanup_pending)
              × (outcome.failure_code ≡ none → settled.failure_code ≡ some cleanup_failed))
  unfolding settle
  settle_keeps_failure true true error outcome = (closed_code outcome.stage outcome, λ h. cc)
  settle_keeps_failure true false error outcome = pending_laws (unproven true false error) outcome
  settle_keeps_failure false workspace error outcome =
      pending_laws (unproven false workspace error) outcome
