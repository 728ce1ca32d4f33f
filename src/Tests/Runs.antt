-- ===== src/Tests/Runs.antt =====
-- The theorems on a run, with services that answer every call: a patch of one line whose test passes
-- and whose review approves.
use native.Mathlib.Decide.{ℕ_discrete}
use leftovers.Base.{
  if◌then◌else◌, ℕ, ◌+◌, ◌≤◌, String, ◌≡◌, refl, ◌↔◌, true, false, ◌&&◌, none, some, [], ◌∷◌,
}
use leftovers.Base.Int.{pos}
use leftovers.Base.Text.{str_eq}
use leftovers.Models.{CommandResult, AgentResult, RunOutcome}
use leftovers.Models.Payload.{null, bool, obj, end, field}
use leftovers.Models.Stages.{
  RunStage, selected, pr_open, complete, failed, cleanup_pending, FailureCode, cleanup_failed,
}
use leftovers.Budget.Error.{daily}
use leftovers.Budget.Ledger.{BudgetReservation}
use leftovers.Orchestrator.Exec.{
  Message, empty, done, State, ◌>>=◌, attempt, raise_when, set_outcome, log, call, tell, Call,
}
use leftovers.Orchestrator.Exec.Count.{agents}
use leftovers.Orchestrator.Services.{Task, RankedCandidate, Services}
use leftovers.Orchestrator.Cleanup.{settle, clean_up, close_ledger, finish_run}
use leftovers.Orchestrator.Cleanup.Finish.{IsProven, finish_run_complete_iff}
use leftovers.Orchestrator.Cleanup.Laws.{settle_keeps_failure}
use leftovers.Orchestrator.Tasks.{bounded_test_failures, Job, run_agent, prompt_agent}
use leftovers.Orchestrator.Repair.{
  DiffInspection-discrete, Verified, is_approved, gated_diff, unchanged, verify, review,
  repair_loop,
}
use leftovers.Orchestrator.Exec.Runs.{Gives}
use leftovers.Policy.Diff.{diff_gate}
use leftovers.Policy.Failure.{List-discrete}
use leftovers.Config.Ref.{is_control}
use leftovers.Text.Regex.{full_match, search_in}
use leftovers.Text.Glob.{fnmatch, path_match, name_of}
use leftovers.Text.Patterns.{has_mode, has_secret}
use leftovers.Orchestrator.Exec.{raise, get_outcome}
use leftovers.Orchestrator.Repair.Laws.{IsVerified, repair_loop-IsVerified}
use leftovers.Orchestrator.Cycle.{work}
use leftovers.Orchestrator.Cycle.Bound.{work_starts_few_agents}
use leftovers.Tests.Samples.{whole_floats, plain, repository, config}
use leftovers.Tests.Budgets.{taken}
use leftovers.Tests.Configs.{config_accepted}
use leftovers.Tests.Gates.{small_diff, issue, score}

abbrev gives : {A : Type 0} → A → Call ℕ A
gives a w = (done a, w)

abbrev pub test_result : CommandResult ℕ
test_result = record {
  argv = "test" ∷ [];
  exit_code = pos 0;
  duration_seconds = 1;
  stdout_tail = "";
  stderr_tail = "";
  timed_out = false;
}

abbrev status_of : String → String
status_of stage =
    if str_eq stage "planning"
    then "planned"
    else if str_eq stage "review"
    then "approve"
    else "implemented"

abbrev answer : Task ℕ → AgentResult ℕ
answer task = record {
  stage = task.stage;
  status = status_of task.stage;
  payload = obj (field "pr_claims_supported" (bool true) end);
  command = test_result;
  usage = none;
}

abbrev ranked : RankedCandidate ℕ
ranked = record {
  issue = issue;
  score = score;
  eligible = true;
  gate_failures = [];
  estimated_tokens_p50 = pos 1000;
  estimated_tokens_p95 = pos 5000;
}

abbrev granted : BudgetReservation
granted = record {
  run_id = "run";
  window_key = daily 9;
  reserved_tokens = pos 10000;
  remaining_after_reservation = pos 80000;
}

abbrev services : Services ℕ ℕ
services = record {
  append = λ kind. gives tt;
  telemetry = λ mark w. w;
  assert_authorized = gives tt;
  is_root = false;
  snapshot = λ remaining. gives taken;
  reserved_tokens = gives (pos 0);
  can_start = λ s n. (true, "");
  reserve = λ s n. gives granted;
  finish = λ stage. gives tt;
  scout = gives (ranked ∷ []);
  open_publications = gives tt;
  check_available = λ slug. gives tt;
  runtime_available = true;
  seconds_left = λ at margin. gives (pos 3000);
  enter_lease = gives tt;
  lease_has_path = λ w. true;
  clone = λ slug branch. gives tt;
  head = gives "abc";
  repository_context = gives tt;
  run_agent = λ task. gives (answer task);
  run_commands = λ stage argvs network. gives (test_result ∷ []);
  inspect_diff = λ limit. gives small_diff;
  create_approval = λ d sha review. gives tt;
  is_github = true;
  refresh_issue = λ i. gives (some i);
  score_issue = λ i. score;
  today = 120;
  branch_head = λ slug branch. gives "abc";
  reserve_slot = λ key slug number. gives tt;
  publish = λ d branch. gives ("https://o/r/1", "leftovers/issue-3");
  finish_slot = λ url. gives tt;
  cleanup_job = gives true;
  cleanup_lease = gives tt;
  is_zero = λ literal. false;
}

abbrev job : Job ℕ
job = record {
  config = config;
  repository = repository;
  candidate = ranked;
  reservation = granted;
  branch = "main";
  base_sha = "abc";
}

abbrev outcome_at : RunStage → RunOutcome ℕ Message
outcome_at at = record {
  run_id = "run";
  stage = at;
  issue_ref = none;
  score = none;
  failure_code = none;
  message = empty;
  pr_url = none;
  branch = none;
  tests = [];
}

abbrev state_at : RunStage → State ℕ ℕ
state_at at = record { world = 0; outcome = outcome_at at; calls = [] }

abbrev verified : Verified ℕ
verified = record {
  diff = small_diff;
  tests = test_result ∷ [];
  review = obj (field "pr_claims_supported" (bool true) end);
}

abbrev loop_ended : State ℕ ℕ
loop_ended = (repair_loop plain services job 2 0 null null (state_at selected)).1

loop-Gives :
    Gives (repair_loop plain services job 2 0 null null) (state_at selected) verified loop_ended
unfolding repair_loop gated_diff verify unchanged review prompt_agent run_agent is_approved
    diff_gate ◌>>=◌ set_outcome call tell log attempt raise_when raise DiffInspection-discrete
    List-discrete ℕ_discrete has_mode has_secret is_control fnmatch full_match path_match name_of
    search_in bounded_test_failures
loop-Gives = refl

repair_loop-IsVerified_example : IsVerified plain services job verified
repair_loop-IsVerified_example =
    repair_loop-IsVerified plain services job 2 0 null null (state_at selected) loop_ended verified
      loop-Gives

work_starts_few_agents_example :
    agents (work plain services config true repository ranked granted (state_at selected)).1.calls
    ≤ agents [] + 10
work_starts_few_agents_example =
    work_starts_few_agents plain whole_floats services config true repository ranked granted
      (state_at selected) config_accepted

run_finishes :
    Gives
      (finish_run services true)
      (state_at pr_open)
      tt
      (finish_run services true (state_at pr_open)).1
unfolding finish_run clean_up close_ledger settle ◌>>=◌ get_outcome set_outcome call tell attempt
    raise
run_finishes = refl

finish_run_complete_iff_example :
    ((finish_run services true (state_at pr_open)).1.outcome.stage ≡ complete)
    ↔ IsProven services 0 pr_open
finish_run_complete_iff_example =
    finish_run_complete_iff services true (state_at pr_open)
      (finish_run services true (state_at pr_open)).1 refl run_finishes

settle_keeps_failure_example :
    let settled = settle false false "kept" failed (outcome_at failed) in
    ((code : FailureCode) → none ≡ some code → settled.failure_code ≡ some code)
    × (false && false ≡ false
        → (settled.stage ≡ cleanup_pending)
          × ((outcome_at failed).failure_code ≡ none → settled.failure_code ≡ some cleanup_failed))
settle_keeps_failure_example = settle_keeps_failure false false "kept" (outcome_at failed)
