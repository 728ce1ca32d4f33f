-- ===== src/Orchestrator/Repair/Bound.antt =====
-- How many agents the parts of `Orchestrator.Repair` may start, however they end.
use leftovers.Base.{ℕ, zero, suc, ◌+◌, ◌*◌, String, Option, List, arith}
use leftovers.Models.{CommandResult}
use leftovers.Models.Payload.{Json}
use leftovers.Models.Stages.{RunStage, implementing, verifying, reviewing}
use leftovers.Policy.Diff.{DiffInspection}
use leftovers.Text.Platform.{Platform}
use leftovers.Orchestrator.Exec.{agent, commands}
use leftovers.Orchestrator.Exec.Count.{
  Starts, Starts-bind, Starts-attempt, Starts-more, Starts-call, Starts-log, Starts-tell,
  Starts-set, Starts-pure, Starts-raise, Starts-raise_when, Starts-if, Starts-after,
}
use leftovers.Orchestrator.Services.{Prior, Task, Services}
use leftovers.Orchestrator.Tasks.{Job, run_agent, enter, prompt_agent}
use leftovers.Orchestrator.Repair.{
  any_failed, is_approved, gated_diff, run_commands, set_up, unchanged, verify, repair, review,
  repair_loop,
}

module _ {Float W : Type 0} (services : Services Float W) where
  pub run_agent-Starts : (task : Task Float) → Starts 1 (run_agent services task)
  unfolding run_agent
  run_agent-Starts task = Starts-bind 1 0 (Starts-log (agent task.stage)) λ _.
      Starts-after (Starts-tell _) λ _.
        Starts-after
          (Starts-attempt (Starts-call _) λ e. Starts-after (Starts-tell _) λ _. Starts-raise e)
          λ result. Starts-after (Starts-tell _) λ _. Starts-pure result

  pub prompt_agent-Starts : (task : Task Float) → Starts 1 (prompt_agent services task)
  unfolding prompt_agent
  prompt_agent-Starts task = Starts-after (Starts-call _) λ _.
      Starts-bind 1 0 (run_agent-Starts task)
        λ result. Starts-after (Starts-call _) λ _. Starts-pure result

  pub enter-Starts : (to : RunStage) → Starts 0 (enter services to)
  enter-Starts to = Starts-after (Starts-set _) λ _. Starts-tell _

module _ {Float W : Type 0} (platform : Platform) (services : Services Float W)
    (job : Job Float) where
  gated_diff-Starts : Starts 0 (gated_diff platform services job)
  unfolding gated_diff
  gated_diff-Starts =
      Starts-after (Starts-call _) λ d.
        Starts-after (Starts-call _) λ _. Starts-after (Starts-raise_when _ _) λ _. Starts-pure d

  run_commands-Starts :
      (stage : Option ℕ) (argvs : List (List String)) (network : String)
      → Starts 0 (run_commands platform services job stage argvs network)
  run_commands-Starts stage argvs network =
      Starts-after (Starts-log (commands stage)) λ _. Starts-call _

  set_up-Starts : (cycle : ℕ) → Starts 0 (set_up platform services job cycle)
  set_up-Starts zero = Starts-if _ (Starts-pure tt) (
      Starts-after (run_commands-Starts _ _ _)
        λ _. Starts-after (Starts-call _) λ _. Starts-raise_when _ _)
  set_up-Starts (suc cycle) = Starts-pure tt

  pub unchanged-Starts :
      (d after : DiffInspection) (message : String)
      → Starts 0 (unchanged platform services job d after message)
  unfolding unchanged
  unchanged-Starts d after message =
      Starts-after (Starts-if _ (Starts-call _) (Starts-pure job.base_sha))
        λ head. Starts-raise_when _ _

  verify-Starts : (cycle : ℕ) (d : DiffInspection) → Starts 0 (verify platform services job cycle d)
  unfolding verify
  verify-Starts cycle d = Starts-after (enter-Starts services verifying) λ _.
      Starts-after (set_up-Starts cycle) λ _. Starts-after (run_commands-Starts _ _ _) λ results.
        Starts-after (Starts-set _) λ _. Starts-after (Starts-tell _) λ _.
          Starts-after (Starts-call _) λ _. Starts-after (Starts-call _) λ after.
            Starts-after (Starts-raise_when _ _)
              λ _. Starts-after (unchanged-Starts d after _) λ _. Starts-pure results

  repair-Starts :
      (prior : Prior Float) (message : String)
      → Starts 1 (repair platform services job prior message)
  unfolding repair
  repair-Starts prior message = Starts-after (enter-Starts services implementing) λ _.
      Starts-after (Starts-call _) λ _.
        Starts-bind 1 0 (prompt_agent-Starts services _)
          λ result. Starts-after (Starts-raise_when _ _) λ _. Starts-pure result.payload

  review-Starts :
      (plan report : Json) (d : DiffInspection) (results : List (CommandResult Float))
      → Starts 1 (review platform services job plan report d results)
  unfolding review
  review-Starts plan report d results = Starts-after (enter-Starts services reviewing) λ _.
      Starts-bind 1 0 (prompt_agent-Starts services _)
        λ result. Starts-after (Starts-tell _) λ _. Starts-pure result

  -- A loop of `left` cycles starts two agents in each cycle at most, a reviewer and a repairer.
  pub repair_loop-Starts :
      (left cycle : ℕ) (plan report : Json)
      → Starts (2 * left) (repair_loop platform services job left cycle plan report)
  unfolding repair_loop
  repair_loop-Starts zero cycle plan report = Starts-raise _
  repair_loop-Starts (suc left) cycle plan report = Starts-after gated_diff-Starts λ d.
      Starts-after (verify-Starts cycle d) λ results.
        Starts-if (any_failed results)
          (Starts-after (Starts-raise_when _ _) λ _. Starts-more (omega arith) (
            Starts-bind 1 (2 * left) (repair-Starts _ _)
              λ next. repair_loop-Starts left (suc cycle) plan next))
          (Starts-more (omega arith) (
            Starts-bind 1 (1 + 2 * left) (review-Starts plan report d results) λ reviewed.
              Starts-if (is_approved services.is_zero reviewed)
                (Starts-more (omega arith) (Starts-pure _))
                (Starts-after (Starts-raise_when _ _) λ _.
                  Starts-bind 1 (2 * left) (repair-Starts _ _)
                    λ next. repair_loop-Starts left (suc cycle) plan next)))
