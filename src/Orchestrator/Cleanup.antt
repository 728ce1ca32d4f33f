-- ===== src/Orchestrator/Cleanup.antt =====
-- The `finally` of `_run_cycle` in src/leftovers/orchestrator.py: the containers go first, then the
-- workspace, and the run counts as clean only if both are proven gone.
pub mod Laws
pub mod Finish
use leftovers.Base.{if◌then◌else◌, String, Bool, true, false, ◌&&◌, ◌||◌, Option, none, some}
use leftovers.Base.Int.{ℤ, pos}
use leftovers.Models.{RunOutcome}
use leftovers.Models.Stages.{RunStage, pr_open, cleaning, complete}
use leftovers.Orchestrator.Exec.{
  Message, unproven, Raised, runner_error, agent_output_error, workspace_error, os_error,
  sqlite_error, done, Exec, pure, ◌>>=◌, ◌>>◌, rescue, get_outcome, set_outcome, call, tell,
}
use leftovers.Orchestrator.Services.{Mark, transition, record_budget, Services}
use leftovers.Orchestrator.Failures.{mark_cleanup_pending}

abbrev pub no_cleanup_error : String
no_cleanup_error = "workspace retained until container cleanup can be proven"

-- `except (OSError, RunnerError)` around `cleanup_job`, `except (OSError, WorkspaceError)` around
-- `lease.cleanup`, `except OSError` around the entries (an audit sink that is unavailable does not
-- undo the cleanup) and `except (OSError, sqlite3.Error)` around the ledger.
abbrev pub unproven_containers : Raised → Option Bool
unproven_containers (os_error _) = some false
unproven_containers (runner_error _ _) = some false
unproven_containers (agent_output_error _) = some false
unproven_containers _ = none

abbrev pub kept_workspace : Raised → Option (Bool × String)
kept_workspace (os_error text) = some (false, text)
kept_workspace (workspace_error text) = some (false, text)
kept_workspace _ = none

abbrev pub no_audit_sink : Raised → Option (Unit {0})
no_audit_sink (os_error _) = some tt
no_audit_sink _ = none

abbrev pub no_storage : Raised → Option (Option ℤ)
no_storage (os_error _) = some none
no_storage (sqlite_error _) = some none
no_storage _ = none

-- `if outcome_before_cleanup == RunStage.PR_OPEN: outcome.stage = RunStage.COMPLETE`.
abbrev pub close_publication :
    {Float : Type 0} → RunStage → RunOutcome Float Message → RunOutcome Float Message
close_publication pr_open outcome = record outcome { stage = complete }
close_publication _ outcome = outcome

-- What the two proofs make of the outcome; `before` is the stage on entry.
unfoldable pub settle :
    {Float : Type 0}
    → Bool
    → Bool
    → String
    → RunStage
    → RunOutcome Float Message
    → RunOutcome Float Message
unfolding mark_cleanup_pending
settle containers workspace error before outcome =
    let settled = close_publication before outcome in
    let pending = mark_cleanup_pending (unproven containers workspace error) outcome in
    if containers && workspace then settled else pending

module _ {Float W : Type 0} (services : Services Float W) where
  abbrev pub Run : Type 0 → Type 0
  Run A = Exec Float W A

  abbrev pub containers_removed : Run Bool
  containers_removed = rescue unproven_containers (call services.cleanup_job)

  -- With the error's text.
  abbrev pub workspace_removed : Run (Bool × String)
  workspace_removed =
      rescue kept_workspace (do call services.cleanup_lease; pure (true, no_cleanup_error))

  unfoldable pub clean_up : Run (Unit {0})
  unfolding settle
  clean_up = do
    before ← get_outcome
    tell (services.telemetry (transition cleaning))
    containers ← containers_removed
    (workspace, error) ← if containers then workspace_removed else pure (false, no_cleanup_error)
    set_outcome (settle containers workspace error before.stage)
    tell (services.telemetry (Mark.cleanup containers workspace))
    rescue no_audit_sink (do
      call (services.append "state")
      call (
          services.append
            (if containers && workspace then "cleanup_receipt" else "cleanup_failed")))

  -- `ledger.finish(run_id, outcome.stage.value)` and the record of what is reserved then. Neither is
  -- an error of the run when storage fails.
  unfoldable pub close_ledger : Run (Unit {0})
  close_ledger = do
    outcome ← get_outcome
    finished ← rescue no_storage (do call (services.finish outcome.stage); pure (some (pos 0)))
    elim finished [
      | none ↦ pure tt
      | some _ ↦ do
        reserved ← rescue no_storage (do n ← call services.reserved_tokens; pure (some n))
        elim reserved [
          | none ↦ pure tt
          | some n ↦ tell (services.telemetry (record_budget "committed" n))
        ]
    ]

  -- The whole block: `entered` says that `lease.__enter__()` returned.
  unfoldable pub finish_run : Bool → Run (Unit {0})
  unfolding clean_up close_ledger
  finish_run entered = do
    needed ← (λ s. (done (entered || services.lease_has_path s.world), s))
    if needed then clean_up else pure tt
    close_ledger
