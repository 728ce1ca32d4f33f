-- ===== src/Lib.antt =====
-- Leftovers is a controller that spends unused quota of a coding agent on one open issue of a
-- curated repository: it checks the token budget, picks an issue, lets agents plan, implement and
-- review a patch in a disposable sandbox, and opens at most one draft pull request. This library
-- models the controller's decisions and proves what they promise.
--
-- The parts and their files, with paths from the repository's root:
--   Models, Models/*        src/leftovers/models.py: the records, stages and failure codes.
--   Config, Config/*        src/leftovers/config.py: the records of the configuration, the mandatory
--                           forbidden paths, `_safe_git_ref` and `_validate`, whose sections are
--                           Config/Validate/{Service,Sandbox,Agent,Rules}.
--   Budget, Budget/*        src/leftovers/budget.py: window keys and resets (Window), `BudgetGate`
--                           (Gate) and `BudgetLedger` (Ledger). The table of reservations is the
--                           list of its rows, and a method is one transaction on it.
--   Publications/*          src/leftovers/state.py: `PublicationLedger`, in the same way.
--   Policy, Policy/*        src/leftovers/policy.py: `candidate_gate` (Candidate), `diff_gate` (Diff),
--                           `_mode_failures` (Modes) and the statistics of `inspect_diff` (Numstat).
--   Orchestrator/*          src/leftovers/orchestrator.py: `_run_cycle` and `run`, phase by phase:
--                           Admission, Selection, Cycle, Repair, Publish, Failures (the handlers) and
--                           Cleanup (the `finally`).
--   Runner, Runner/*        src/leftovers/runner.py: what an agent may send: `_validate_agent_payload`
--                           (Payload), `_validate_json_complexity` (Complexity), the telemetry
--                           monitor with its polls (Monitor), and the removal of containers, by a
--                           run and by the sweep of expired ones (Containers).
--   Publisher, Publisher/*  src/leftovers/publisher.py: the approval bundle (Approval), titles (Title),
--                           what GitHub's answers have to be (Reconcile), and `publish` with its
--                           checks, fork, branch and pull request (Checks, Remote, Opening, Release)
--                           over a record of calls (Tools).
--   Text/*                  The regular expressions and file name patterns that the parts match with.
--   Base/*                  Tests, lists, integers, texts and results shared by all.
--   Tests/*                 Sample values, and the theorems applied to them.
--
-- How they interact: `run_cycle` calls the two gates, the two ledgers, the runner, the workspace, Git
-- and GitHub. The record `Orchestrator.Services.Services` holds those calls over a state `W` of the
-- world outside: each may answer anything, raise anything and change that state, so that what is
-- proved of the cycle rests on no assumption about them. The diff gate and the candidate gate are
-- the modelled ones. A call of the orchestrator is a function on `Orchestrator.Exec.State`, the
-- world with the run's outcome and a log of the agents, commands and publications it has started;
-- the state survives an exception, and an early `return outcome` is a flow of its own.
--
-- The publisher is modelled in the same way on its own: `Publisher.Tools.Tools` holds the calls of Git
-- and of GitHub's command line, and the trace of `Publisher.Exec.State` the checks of the approval and
-- the writes, in order. The orchestrator's service `publish` stands for it. The orchestrator's service
-- `run_agent` stands for the runner, whose checks of a result, `Runner.Payload`, tell what its status
-- and payload may be.
--
-- Code that the repository does not hold is a parameter: binary64 floats (`Config.Floats`, with the
-- one law of rounding that the budget needs, for counts up to 2 ^ 53), time zones (`Budget.Zone`),
-- and tables of Python's library and of Unicode (`Text.Platform`). Integers of Python are the unbounded `ℤ` of
-- Base/Int; an instant is its number of microseconds.
--
-- In the statements, `Exec.Runs.Gives` says that a computation gives a value and ends in a state, and a
-- fact about an answer names the call, its arguments and the world that it was made in.
--
-- Loops: `for repair_cycle in range(n + 1)` recurses on the number of cycles to come, which is the
-- length of the range, so the fuel is exact, and so is the 15 of the wait for a fork; the other loops
-- recurse on their lists.
--
-- Not modelled: the details of journal and telemetry entries, which no decision reads; the prompts
-- and the text of the pull request; SQLite's errors inside the ledgers (the orchestrator's services
-- may raise them); Git's own behaviour and the rest of `inspect_diff`; `rank_candidates` and the
-- scoring; the reading of TOML files; of the runner the processes and threads of `execute` and the
-- commands that start a container; of the publisher the running of commands, the helper that holds
-- the credentials and the removal of its files; the telemetry, workspace, dashboard and command line,
-- which are input and output around these decisions. The texts of exceptions leave out the names and
-- the output that the code puts into them. A malformed time zone, at which `ZoneInfo` raises a
-- ValueError or an OSError that the code does not turn into a ConfigError, is refused like an unknown
-- one; `int` reads the digits of ASCII only; and a float product that overflows is left out. The text for a value that is too complex does not tell
-- which limit it passed.
pub mod Base
pub mod Text
pub mod Models
pub mod Config
pub mod Budget
pub mod Publications
pub mod Policy
pub mod Orchestrator
pub mod Runner
pub mod Publisher
pub mod Tests
