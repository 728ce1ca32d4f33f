-- ===== src/Orchestrator/Cycle.antt =====
-- `_run_cycle` and `run` of src/leftovers/orchestrator.py, put together from their parts.
pub mod Bound
use leftovers.Models.Payload.{get}
use leftovers.Base.{if◌then◌else◌, is_empty, ℕ, String, Bool, true, false, not, Option, none, some}
use leftovers.Base.Int.{ℤ, pos, pos_part, ◌+ℤ◌, ltb_ℤ, min_ℤ}
use leftovers.Base.Text.{str_eq, is_blank}
use leftovers.Config.{RepositoryConfig, AppConfig}
use leftovers.Models.{Instant, BudgetSnapshot, AgentResult}
use leftovers.Models.Stages.{
  preflight, sandbox_ready, planning, implementing, deferred, failed, aborted, budget_exhausted,
  policy_denied, no_reproduction, runtime_unavailable, agent_failed,
}
use leftovers.Text.Platform.{Platform}
use leftovers.Budget.Ledger.{BudgetReservation}
use leftovers.Orchestrator.Exec.{
  fixed, run_abort, done, raised, returned, Exec, pure, ◌>>=◌, ◌>>◌, attempt, finally, raise_when,
  get_outcome, set_outcome, call, tell,
}
use leftovers.Orchestrator.Services.{
  event, record_budget, finish_telemetry, nothing, approved_plan, RankedCandidate, Services,
}
use leftovers.Orchestrator.Failures.{handle_error, handle}
use leftovers.Orchestrator.Tasks.{exceeds, Job, enter, append, prompt_agent, aborted_with}
use leftovers.Orchestrator.Admission.{refuse, refuse_when, no_budget, admit, check_budget}
use leftovers.Orchestrator.Selection.{first_repository, or_key_error, select}
use leftovers.Orchestrator.Repair.{repair_loop}
use leftovers.Orchestrator.Publish.{release}
use leftovers.Orchestrator.Cleanup.{finish_run}

-- `repository.default_branch or issue.repo.default_branch`.
abbrev pub branch_of : Option String → String → String
branch_of none common = common
branch_of (some own) common = if is_blank own then common else own

abbrev pub or_deferred :
    {Float W : Type 0} → Services Float W → Option Instant → Exec Float W Instant
or_deferred services none =
    refuse services deferred budget_exhausted (fixed "quota reset time is unknown") "deferred"
or_deferred services (some at) = pure at

-- `range(n)` of an integer goes through `n` values, through none if it is negative.
abbrev pub cycles_of : ℤ → ℕ
cycles_of n = pos_part (n +ℤ pos 1)

module _ {Float W : Type 0} (platform : Platform) (services : Services Float W)
    (config : AppConfig Float) where
  -- The tokens are reserved, and the deadline leaves a second before the reset of the window. The text
  -- of the missing runtime also names it, which the fixed text leaves out.
  unfoldable pub reserve_run :
      BudgetSnapshot → RepositoryConfig Float → Exec Float W BudgetReservation
  reserve_run observed repository = do
    refuse_when services (is_empty repository.test_commands) aborted policy_denied
        (fixed "repository has no operator-curated verification command") "aborted"
    refuse_when services (not services.runtime_available) failed runtime_unavailable
        (fixed "the runtime is not installed or not on PATH") "failed"
    reservation ←
        attempt (call (services.reserve observed config.agent.estimated_tokens_p95))
          (no_budget services)
    append services "budget_reserved"
    held ← call services.reserved_tokens
    tell (services.telemetry (record_budget "reserved" held))
    resets_at ← or_deferred services observed.resets_at
    left ← call (services.seconds_left resets_at config.budget.reset_safety_seconds)
    refuse_when services (ltb_ℤ (min_ℤ config.budget.max_run_seconds left) (pos 1)) deferred
        budget_exhausted (fixed "quota-window deadline expired before execution") "deferred"
    pure reservation

  -- The workspace is cloned and the agents plan and implement; the rest of the `try` follows.
  unfoldable pub prepare :
      RepositoryConfig Float → RankedCandidate Float → BudgetReservation → Exec Float W (Job Float)
  prepare repository candidate reservation = do
    enter services preflight
    append services "state"
    let branch = branch_of repository.default_branch candidate.issue.repo.default_branch
    call (services.clone repository.slug branch)
    base_sha ← call services.head
    call services.repository_context
    enter services sandbox_ready
    tell (services.telemetry (event "sandbox_ready" sandbox_ready))
    append services "sandbox_ready"
    pure record {
      config = config;
      repository = repository;
      candidate = candidate;
      reservation = reservation;
      branch = branch;
      base_sha = base_sha;
    }

  unfoldable pub plan_work : Job Float → Exec Float W (AgentResult Float)
  unfolding prompt_agent
  plan_work job = do
    enter services planning
    plan ←
        prompt_agent services
          record { stage = "planning"; prior = nothing; read_only_workspace = true }
    raise_when (not (str_eq plan.status "planned"))
        (aborted_with no_reproduction (fixed "planning agent could not produce a safe plan"))
    raise_when
        (exceeds job.reservation.reserved_tokens (get "estimated_remaining_tokens" plan.payload))
        (run_abort budget_exhausted (fixed "planning estimate exceeds the reserved quota envelope")
          deferred)
    pure plan

  unfoldable pub implement : AgentResult Float → Exec Float W (AgentResult Float)
  unfolding prompt_agent
  implement plan = do
    enter services implementing
    implementation ← prompt_agent services record {
      stage = "implementation";
      prior = approved_plan plan.payload;
      read_only_workspace = false;
    }
    raise_when (not (str_eq implementation.status "implemented"))
        (aborted_with agent_failed (fixed "implementation agent did not finish"))
    pure implementation

  unfoldable pub work :
      Bool
      → RepositoryConfig Float
      → RankedCandidate Float
      → BudgetReservation
      → Exec Float W (Unit {0})
  unfolding prepare plan_work implement repair_loop release
  work publish_flag repository candidate reservation = do
    job ← prepare repository candidate reservation
    plan ← plan_work job
    implementation ← implement plan
    verified ←
        repair_loop platform services job (cycles_of config.agent.max_repair_cycles) 0 plan.payload
          implementation.payload
    release platform services job publish_flag verified

  -- The `try` with its handlers and its `finally`. `lease.__enter__()` raises before the flag is set.
  unfoldable pub guarded : Exec Float W (Unit {0}) → Exec Float W (Unit {0})
  unfolding handle finish_run
  guarded body s =
      let entry = call services.enter_lease s in
      elim (entry.0) [
        | done _ ↦ finally (attempt body (handle services)) (finish_run services true) entry.1
        | raised e ↦ finally (handle services e) (finish_run services false) entry.1
        | returned ↦ (returned, entry.1)
      ]

  unfoldable pub run_cycle : Bool → Bool → Option ℤ → Exec Float W (Unit {0})
  unfolding admit check_budget select reserve_run work guarded
  run_cycle execute_work publish_flag remaining_tokens = do
    admit services execute_work publish_flag
    observed ← check_budget services config.agent remaining_tokens
    candidate ← select services publish_flag config.repositories
    let selection_only : Exec Float W (Unit {0}) = set_outcome λ o. record o {
      message = fixed "candidate selected; rerun with --execute to create a disposable workspace";
    }
    let executed : Exec Float W (Unit {0}) = do
      repository ←
          or_key_error services (first_repository candidate.issue.repo.slug config.repositories)
      reservation ← reserve_run observed repository
      guarded (work publish_flag repository candidate reservation)
    if execute_work then executed else selection_only

  -- `run`, once the journal and the telemetry are open: what escapes the cycle becomes an outcome too.
  unfoldable pub run : Bool → Bool → Option ℤ → Exec Float W (Unit {0})
  unfolding run_cycle handle_error
  run execute_work publish_flag remaining_tokens = do
    append services "state"
    finally (attempt (run_cycle execute_work publish_flag remaining_tokens) (handle_error services))
        (do
          outcome ← get_outcome
          tell (services.telemetry (finish_telemetry outcome.stage (not execute_work))))
