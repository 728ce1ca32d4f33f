-- ===== src/Orchestrator/Failures.antt =====
-- The handlers of src/leftovers/orchestrator.py: how an exception becomes an outcome, in
-- `_run_cycle` and again in `run`, and `_mark_cleanup_pending`.
pub mod Laws
use leftovers.Base.Text.{str_eq}
use leftovers.Base.{if◌then◌else◌, String, Bool, true, false, Option, none, some}
use leftovers.Models.{RunOutcome}
use leftovers.Models.Stages.{
  RunStage, publishing, pr_open, failed, cleanup_pending, FailureCode, rate_limited, auth_failed,
  publish_partial, cleanup_failed, runtime_unavailable, agent_failed, invalid_output,
}
use leftovers.Orchestrator.Exec.{
  Message, empty, fixed, also, Raised, run_abort, runner_error, github_error, agent_output_error,
  workspace_error, publication_error, os_error, sqlite_error, subprocess_error, Exec, raise, ◌>>◌,
  set_outcome, call,
}
use leftovers.Orchestrator.Services.{Services}

-- `outcome.message` is empty: Python's "" is false.
abbrev pub is_empty_message : Message → Bool
is_empty_message empty = true
is_empty_message (fixed s) = str_eq s ""
is_empty_message _ = false

unfoldable pub mark_cleanup_pending :
    {Float : Type 0} → Message → RunOutcome Float Message → RunOutcome Float Message
mark_cleanup_pending cleanup_message outcome =
    let pending = record outcome { stage = cleanup_pending } in
    elim outcome.failure_code [
      | none ↦ record pending { failure_code = some cleanup_failed; message = cleanup_message }
      | some _ ↦ record pending {
        message =
            if is_empty_message outcome.message
            then cleanup_message
            else also outcome.message cleanup_message;
      }
    ]

-- `outcome.stage in {RunStage.PUBLISHING, RunStage.PR_OPEN}`.
abbrev pub publication_uncertain : RunStage → Bool
publication_uncertain publishing = true
publication_uncertain pr_open = true
publication_uncertain _ = false

-- What the handler of `_run_cycle` and `run` names: the failure code it records and the text of the
-- exception, for an exception that it catches. It is told whether a publication may have happened.
unfoldable pub failure_of : Bool → Raised → Option (FailureCode × String)
failure_of uncertain (publication_error s) = some (publish_partial, s)
failure_of uncertain (github_error retryable s) =
    some (if uncertain then publish_partial else if retryable then rate_limited else auth_failed, s)
failure_of uncertain (agent_output_error s) =
    some (if uncertain then publish_partial else invalid_output, s)
failure_of uncertain (runner_error missing s) = some (
  if uncertain then publish_partial else if missing then runtime_unavailable else agent_failed,
  s,
)
failure_of uncertain (workspace_error s) =
    some (if uncertain then publish_partial else agent_failed, s)
failure_of uncertain (os_error s) = some (if uncertain then publish_partial else agent_failed, s)
failure_of uncertain (sqlite_error s) =
    some (if uncertain then publish_partial else agent_failed, s)
failure_of uncertain (subprocess_error s) =
    some (if uncertain then publish_partial else agent_failed, s)
failure_of uncertain _ = none

-- `outcome.stage = stage; outcome.failure_code = code; outcome.message = message`.
abbrev pub fail_with :
    {Float : Type 0}
    → RunStage
    → FailureCode
    → Message
    → RunOutcome Float Message
    → RunOutcome Float Message
fail_with to code text outcome = record outcome {
  stage = to;
  failure_code = some code;
  message = text;
}

module _ {Float W : Type 0} (services : Services Float W) where
  -- The outcome fails with the code that was found; an exception that is not named is raised on.
  abbrev pub fail_run : Raised → Option (FailureCode × String) → Exec Float W (Unit {0})
  fail_run e none = raise e
  fail_run e (some (code, text)) = do
    set_outcome (fail_with failed code (fixed text))
    call (services.append "failed")

  -- The handler of `run`, which is the second one of the `try` of `_run_cycle`.
  unfoldable pub handle_error : Raised → Exec Float W (Unit {0})
  unfolding failure_of
  handle_error e s = fail_run e (failure_of (publication_uncertain s.outcome.stage) e) s

  -- The handlers of the `try` of `_run_cycle`, `except RunAbort` first.
  unfoldable pub handle : Raised → Exec Float W (Unit {0})
  unfolding handle_error
  handle (run_abort code text to) = do
    set_outcome (fail_with to code text)
    call (services.append "aborted")
  handle e = handle_error e
