-- ===== src/Orchestrator/Tasks.antt =====
-- `_run_agent`, `_bounded_test_failures` and what src/leftovers/orchestrator.py reads of an agent's
-- payload.
use leftovers.Budget.Ledger.{BudgetReservation}
use leftovers.Base.{
  if◌then◌else◌, ℕ, zero, suc, String, Bool, true, false, Option, some, List, [], ◌∷◌,
}
use leftovers.Base.Int.{ℤ, pos, ltb_ℤ}
use leftovers.Config.{RepositoryConfig, AppConfig}
use leftovers.Models.{CommandResult, passed, AgentResult}
use leftovers.Models.Payload.{Json, bool, int}
use leftovers.Models.Stages.{RunStage, aborted, FailureCode}
use leftovers.Orchestrator.Exec.{
  Message, Raised, run_abort, agent, Exec, pure, raise, ◌>>=◌, ◌>>◌, attempt, set_stage, log, call,
  tell,
}
use leftovers.Orchestrator.Services.{
  transition, start_invocation, finish_invocation, TestFailure, Task, RankedCandidate, Services,
}

-- `isinstance(value, int) and value > limit`: a Boolean is an integer of Python.
abbrev pub exceeds : ℤ → Option Json → Bool
exceeds limit (some (int n)) = ltb_ℤ limit n
exceeds limit (some (bool b)) = ltb_ℤ limit (if b then pos 1 else pos 0)
exceeds limit _ = false

-- The loop of `_bounded_test_failures` with the next ordinal, while `room` more failures fit.
abbrev pub failures_from :
    {Float : Type 0} → ℕ → ℕ → List (CommandResult Float) → List (TestFailure Float)
failures_from room ordinal [] = []
failures_from zero ordinal (r ∷ rs) = []
failures_from (suc room) ordinal (r ∷ rs) =
    let skipped = failures_from (suc room) (suc ordinal) rs in
    let found = failures_from room (suc ordinal) rs in
    if passed r then skipped else record { configured_check_ordinal = ordinal; result = r } ∷ found

unfoldable pub bounded_test_failures :
    {Float : Type 0} → List (CommandResult Float) → List (TestFailure Float)
bounded_test_failures results = failures_from 4 1 results

-- What one cycle works with once the candidate is selected and its tokens are reserved.
pub record Job (Float : Type 0) : Type 0 where
  pub config : AppConfig Float
  pub repository : RepositoryConfig Float
  pub candidate : RankedCandidate Float
  pub reservation : BudgetReservation
  pub branch : String
  pub base_sha : String

module _ {Float W : Type 0} (services : Services Float W) where
  -- The invocation is recorded as finished when the runner raises too.
  unfoldable pub run_agent : Task Float → Exec Float W (AgentResult Float)
  run_agent task = do
    log (agent task.stage)
    tell (services.telemetry (start_invocation task.stage))
    result ←
        attempt (call (services.run_agent task)) λ (e : Raised). (do
          tell (services.telemetry (finish_invocation task.stage false))
          raise e)
    tell (services.telemetry (finish_invocation task.stage true))
    pure result

  -- `outcome.stage = stage` and the telemetry's transition to it.
  abbrev pub enter : RunStage → Exec Float W (Unit {0})
  enter to = do set_stage to; tell (services.telemetry (transition to))

  abbrev pub append : String → Exec Float W (Unit {0})
  append kind = call (services.append kind)

  -- The prompt's digest is recorded, the agent runs, and its result is recorded.
  unfoldable pub prompt_agent : Task Float → Exec Float W (AgentResult Float)
  unfolding run_agent
  prompt_agent task = do
    append "prompt"
    result ← run_agent task
    append "agent_result"
    pure result

-- `RunAbort(code, message)`, whose stage is `ABORTED` unless given.
abbrev pub aborted_with : FailureCode → Message → Raised
aborted_with code message = run_abort code message aborted
