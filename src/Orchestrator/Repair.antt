-- ===== src/Orchestrator/Repair.antt =====
-- The loop of verification, review and repair of `_run_cycle` in src/leftovers/orchestrator.py.
pub mod Steps
pub mod Laws
pub mod Bound
use leftovers.Base.{
  if◌then◌else◌, any, is_empty, ℕ, zero, suc, String, Bool, true, false, not, ◌&&◌, ◌||◌, Option,
  none, some, List, ℕ_discrete,
}
use leftovers.Base.Int.{pos, leb_ℤ}
use leftovers.Base.Text.{str_eq, is_blank}
use leftovers.Models.{CommandResult, passed, AgentResult}
use leftovers.Models.Payload.{Json, get, is_true, is_falsy}
use leftovers.Models.Stages.{
  implementing, verifying, reviewing, policy_denied, test_failed, review_rejected, agent_failed,
}
use leftovers.Policy.Diff.{DiffInspection, diff_gate}
use leftovers.Policy.Failure.{DiffFailure, List-discrete, DiffFailure-discrete}
use leftovers.Text.Platform.{Platform}
use leftovers.Orchestrator.Exec.{
  Message, fixed, diff, mutated, other, agent, commands, Exec, pure, raise, ◌>>=◌, ◌>>◌, raise_when,
  set_outcome, log, call, tell,
}
use leftovers.Orchestrator.Services.{event, Prior, test_repair, for_review, review_repair, Services}
use leftovers.Orchestrator.Tasks.{
  bounded_test_failures, Job, enter, append, prompt_agent, aborted_with,
}

unfoldable pub DiffInspection-discrete : Discrete DiffInspection
DiffInspection-discrete = hlevel (ℕ_discrete, List-discrete, DiffFailure-discrete)

-- `a == b` of two inspections.
abbrev pub same_diff : DiffInspection → DiffInspection → Bool
same_diff a b = elim (DiffInspection-discrete a b) [ yes _ ↦ true | no _ ↦ false ]

-- What the loop ends with: the patch that was verified, its tests and the payload of its review.
pub record Verified (Float : Type 0) : Type 0 where
  pub diff : DiffInspection
  pub tests : List (CommandResult Float)
  pub review : Json

abbrev pub any_failed : {Float : Type 0} → List (CommandResult Float) → Bool
any_failed results = any (λ r. not (passed r)) results

-- `review.status == "approve" and supported and not missing and not findings`.
unfoldable pub is_approved : {Float : Type 0} → (String → Bool) → AgentResult Float → Bool
is_approved is_zero review =
    str_eq review.status "approve"
    && is_true (get "pr_claims_supported" review.payload)
    && is_falsy is_zero (get "missing_verification" review.payload)
    && is_falsy is_zero (get "findings" review.payload)

module _ {Float W : Type 0} (platform : Platform) (services : Services Float W)
    (job : Job Float) where
  abbrev pub gate_failures : DiffInspection → List DiffFailure
  gate_failures = diff_gate job.repository job.config.policy platform

  abbrev pub inspect : Exec Float W DiffInspection
  inspect = call (services.inspect_diff job.config.policy.max_patch_bytes)

  -- `inspect_diff` and the gate, which the agent's patch has to pass.
  unfoldable pub gated_diff : Exec Float W DiffInspection
  gated_diff = do
    d ← inspect
    append services "diff_gate"
    raise_when (not (is_empty (gate_failures d)))
        (aborted_with policy_denied (Message.diff (gate_failures d)))
    pure d

  abbrev pub run_commands :
      Option ℕ → List (List String) → String → Exec Float W (List (CommandResult Float))
  run_commands stage commands_list network = do
    log (commands stage)
    call (services.run_commands stage commands_list network)

  abbrev pub network_of : Option String → String → String
  network_of none common = common
  network_of (some own) common = if is_blank own then common else own

  -- The setup commands of the first cycle.
  abbrev pub set_up : ℕ → Exec Float W (Unit {0})
  set_up zero =
      let ready : Exec Float W (Unit {0}) = do
        results ←
            run_commands none job.repository.setup_commands
              (network_of job.repository.network job.config.sandbox.network)
        append services "setup_results"
        raise_when (any_failed results)
            (aborted_with test_failed (fixed "sandbox setup command failed"))
      in if is_empty job.repository.setup_commands then pure tt else ready
  set_up (suc cycle) = pure tt

  -- `after != diff or _git(workspace, "rev-parse", "HEAD") != base_sha`.
  unfoldable pub unchanged : DiffInspection → DiffInspection → String → Exec Float W (Unit {0})
  unchanged d after message = do
    head ← if same_diff after d then call services.head else pure job.base_sha
    raise_when (not (same_diff after d) || not (str_eq head job.base_sha))
        (aborted_with policy_denied (fixed message))

  -- The tests run without network, and may not have changed the patch that passed the gate.
  unfoldable pub verify : ℕ → DiffInspection → Exec Float W (List (CommandResult Float))
  unfolding unchanged
  verify cycle d = do
    enter services verifying
    set_up cycle
    results ← run_commands (some cycle) job.repository.test_commands "none"
    set_outcome (λ o. record o { tests = results })
    tell (services.telemetry (event "verification" verifying))
    append services "test_results"
    after ← inspect
    raise_when (not (is_empty (gate_failures after)))
        (aborted_with policy_denied (mutated (gate_failures after)))
    unchanged d after "verification changed the approved candidate patch or Git base"
    pure results

  -- An implementation agent repairs what the tests or the review found.
  unfoldable pub repair : Prior Float → String → Exec Float W Json
  unfolding prompt_agent
  repair prior message = do
    enter services implementing
    append services "state"
    result ←
        prompt_agent services
          record { stage = "implementation"; prior = prior; read_only_workspace = false }
    raise_when (not (str_eq result.status "implemented"))
        (aborted_with agent_failed (fixed message))
    pure result.payload

  unfoldable pub review :
      Json → Json → DiffInspection → List (CommandResult Float) → Exec Float W (AgentResult Float)
  unfolding prompt_agent
  review plan report d results = do
    enter services reviewing
    result ← prompt_agent services record {
      stage = "review";
      prior = for_review plan report d.patch results;
      read_only_workspace = true;
    }
    tell (services.telemetry (event "review" reviewing))
    pure result

  -- `for repair_cycle in range(max_repair_cycles + 1)`, with `left` cycles to come. The last cycle
  -- breaks or raises, so that only an empty range gets to the assertion after the loop.
  unfoldable pub repair_loop : ℕ → ℕ → Json → Json → Exec Float W (Verified Float)
  unfolding gated_diff verify repair review is_approved bounded_test_failures
  repair_loop zero cycle plan report = raise (other "AssertionError")
  repair_loop (suc left) cycle plan report = do
    d ← gated_diff
    results ← verify cycle d
    let last = leb_ℤ job.config.agent.max_repair_cycles (pos cycle)
    let rest = repair_loop left (suc cycle) plan
    let tests_failed : Exec Float W (Verified Float) = do
      raise_when last (
          aborted_with test_failed
            (fixed "required verification command failed after the repair budget"))
      next ←
          repair (test_repair plan report (bounded_test_failures results))
            "test-repair agent did not finish"
      rest next
    let tests_passed : Exec Float W (Verified Float) = do
      reviewed ← review plan report d results
      let rejected : Exec Float W (Verified Float) = do
        raise_when (str_eq reviewed.status "abandon" || last)
            (aborted_with review_rejected (fixed "independent review rejected the patch"))
        next ← repair (review_repair plan reviewed.payload) "repair agent did not finish"
        rest next
      if is_approved services.is_zero reviewed
          then pure record { diff = d; tests = results; review = reviewed.payload }
          else rejected
    if any_failed results then tests_failed else tests_passed
