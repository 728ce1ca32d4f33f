-- ===== src/Orchestrator/Admission.antt =====
-- The start of `_run_cycle` in src/leftovers/orchestrator.py, up to the check of the token budget.
-- Each refusal settles the outcome, records it in the journal and returns.
use leftovers.Base.{if◌then◌else◌, String, Bool, not, ◌&&◌, Option}
use leftovers.Base.Int.{ℤ}
use leftovers.Config.{AgentConfig}
use leftovers.Models.{BudgetSnapshot}
use leftovers.Models.Stages.{
  RunStage, budget_check, deferred, failed, aborted, FailureCode, budget_exhausted, policy_denied,
  agent_failed,
}
use leftovers.Orchestrator.Exec.{
  Message, fixed, Raised, publication_error, os_error, sqlite_error, budget_error, Exec, pure,
  raise, return_outcome, ◌>>=◌, ◌>>◌, attempt, set_outcome, call, tell,
}
use leftovers.Orchestrator.Services.{record_budget, Services}
use leftovers.Orchestrator.Failures.{fail_with}
use leftovers.Orchestrator.Tasks.{enter, append}

module _ {Float W : Type 0} (services : Services Float W) where
  abbrev pub refuse : {A : Type 0} → RunStage → FailureCode → Message → String → Exec Float W A
  refuse to code message kind = do
    set_outcome (fail_with to code message)
    append services kind
    return_outcome

  abbrev pub refuse_when :
      Bool → RunStage → FailureCode → Message → String → Exec Float W (Unit {0})
  refuse_when test to code message kind = if test then refuse to code message kind else pure tt

  -- `except PublicationError`, and the handlers of the budget's and of the storage's exceptions.
  abbrev pub not_authorized : Raised → Exec Float W (Unit {0})
  not_authorized (publication_error s) = refuse aborted policy_denied (fixed s) "aborted"
  not_authorized e = raise e

  abbrev pub no_budget : {A : Type 0} → Raised → Exec Float W A
  no_budget (budget_error s) = refuse deferred budget_exhausted (fixed s) "deferred"
  no_budget e = raise e

  -- The text is prefixed with "budget ledger unavailable: ".
  abbrev pub no_ledger : {A : Type 0} → Raised → Exec Float W A
  no_ledger (os_error s) = refuse failed agent_failed (fixed s) "failed"
  no_ledger (sqlite_error s) = refuse failed agent_failed (fixed s) "failed"
  no_ledger e = raise e

  -- Publication needs execution and the operator's acknowledgement; nothing executes as root.
  unfoldable pub admit : Bool → Bool → Exec Float W (Unit {0})
  admit execute_work publish_flag = do
    refuse_when (publish_flag && not execute_work) aborted policy_denied
        (fixed "publication requires execution") "aborted"
    if publish_flag then attempt (call services.assert_authorized) not_authorized else pure tt
    refuse_when (execute_work && services.is_root) aborted policy_denied
        (fixed "controller execution as root is forbidden") "aborted"

  -- The snapshot, what the ledger already holds of its window, and whether a run may start.
  unfoldable pub check_budget : AgentConfig → Option ℤ → Exec Float W BudgetSnapshot
  check_budget agent_config remaining_tokens = do
    observed ← attempt (call (services.snapshot remaining_tokens)) no_budget
    enter services budget_check
    append services "budget"
    before ← attempt (call services.reserved_tokens) no_ledger
    tell (services.telemetry (record_budget "snapshot" before))
    let verdict = services.can_start observed agent_config.estimated_tokens_p95
    refuse_when (not verdict.0) deferred budget_exhausted (fixed verdict.1) "deferred"
    pure observed
