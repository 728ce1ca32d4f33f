-- ===== src/Orchestrator/Services.antt =====
-- What src/leftovers/orchestrator.py calls: the journal, the telemetry, the two ledgers, the runner,
-- the workspace, Git and GitHub. Each call may raise. An entry of the journal and a record of the
-- telemetry carry details that are read nowhere in the controller, which their kind stands for.
use leftovers.Policy.Candidate.{GateFailure}
use leftovers.Base.{ℕ, String, Bool, Option, List}
use leftovers.Base.Int.{ℤ}
use leftovers.Models.{
  Instant, IssueCandidate, IssueRef, ScoreBreakdown, BudgetSnapshot, CommandResult, AgentResult,
}
use leftovers.Models.Payload.{Json}
use leftovers.Models.Stages.{RunStage}
use leftovers.Policy.Diff.{DiffInspection}
use leftovers.Budget.Error.{WindowKey}
use leftovers.Budget.Ledger.{BudgetReservation}
use leftovers.Orchestrator.Exec.{Call}

pub data Mark : Type 0 where
  transition : RunStage → Mark
  event : String → RunStage → Mark
  set_target : IssueRef → Mark
  record_budget : String → ℤ → Mark
  start_invocation : String → Mark
  finish_invocation : String → Bool → Mark
  cleanup : Bool → Bool → Mark
  finish_telemetry : RunStage → Bool → Mark

-- One entry of the list that `_bounded_test_failures` returns.
pub record TestFailure (Float : Type 0) : Type 0 where
  pub configured_check_ordinal : ℕ
  pub result : CommandResult Float

-- The `prior` of an envelope: what an agent is told of the steps before its own.
pub data Prior (Float : Type 0) : Type 0 where
  nothing : Prior Float
  approved_plan : Json → Prior Float
  test_repair : Json → Json → List (TestFailure Float) → Prior Float
  for_review : Json → Json → List ℕ → List (CommandResult Float) → Prior Float
  review_repair : Json → Json → Prior Float

-- A call of the agent's runner with the prompt that `render_prompt` makes of the envelope.
pub record Task (Float : Type 0) : Type 0 where
  pub stage : String
  pub prior : Prior Float
  pub read_only_workspace : Bool

pub record RankedCandidate (Float : Type 0) : Type 0 where
  pub issue : IssueCandidate
  pub score : ScoreBreakdown Float
  pub eligible : Bool
  pub gate_failures : List GateFailure
  pub estimated_tokens_p50 : ℤ
  pub estimated_tokens_p95 : ℤ

pub record Services (Float W : Type 0) : Type 0 where
  pub append : String → Call W (Unit {0})
  pub telemetry : Mark → W → W
  pub assert_authorized : Call W (Unit {0})
  -- `os.geteuid() == 0`.
  pub is_root : Bool
  pub snapshot : Option ℤ → Call W BudgetSnapshot
  -- `BudgetLedger(...)` and its methods, of the window of the snapshot.
  pub reserved_tokens : Call W ℤ
  pub can_start : BudgetSnapshot → ℤ → Bool × String
  pub reserve : BudgetSnapshot → ℤ → Call W BudgetReservation
  pub finish : RunStage → Call W (Unit {0})
  pub scout : Call W (List (RankedCandidate Float))
  -- `PublicationLedger(...)`, and its `check_available`.
  pub open_publications : Call W (Unit {0})
  pub check_available : String → Call W (Unit {0})
  pub runtime_available : Bool
  -- `int((snapshot.resets_at - utc_now()).total_seconds() - reset_safety_seconds)`.
  pub seconds_left : Instant → ℤ → Call W ℤ
  -- `lease.__enter__()`, and whether `lease.path` is set afterwards.
  pub enter_lease : Call W (Unit {0})
  pub lease_has_path : W → Bool
  pub clone : String → String → Call W (Unit {0})
  -- `_git(workspace, "rev-parse", "HEAD")` and `_repository_context(workspace)`.
  pub head : Call W String
  pub repository_context : Call W (Unit {0})
  pub run_agent : Task Float → Call W (AgentResult Float)
  pub run_commands : Option ℕ → List (List String) → String → Call W (List (CommandResult Float))
  pub inspect_diff : ℤ → Call W DiffInspection
  -- `_render_pr_copy` and `create_approval_bundle`.
  pub create_approval : DiffInspection → String → Json → Call W (Unit {0})
  -- `isinstance(self.source, GitHubClient)` and what such a source is asked.
  pub is_github : Bool
  pub refresh_issue : IssueCandidate → Call W (Option IssueCandidate)
  pub score_issue : IssueCandidate → ScoreBreakdown Float
  pub today : ℕ
  pub branch_head : String → String → Call W String
  pub reserve_slot : WindowKey → String → ℤ → Call W (Unit {0})
  pub publish : DiffInspection → String → Call W (String × String)
  pub finish_slot : String → Call W (Unit {0})
  pub cleanup_job : Call W Bool
  pub cleanup_lease : Call W (Unit {0})
  -- `float(literal) == 0` of a number in a payload.
  pub is_zero : String → Bool
