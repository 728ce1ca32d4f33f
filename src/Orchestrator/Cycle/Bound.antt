-- ===== src/Orchestrator/Cycle/Bound.antt =====
-- How many agents one run of `Orchestrator.Cycle` may start.
use leftovers.Base.{◌+◌, ◌*◌, ◌≤◌, ◌≡◌, Bool, arith}
use leftovers.Base.Result.{ok}
use leftovers.Base.Int.{ℤ, pos, ◌+ℤ◌, ◌≤ℤ◌}
use leftovers.Config.{RepositoryConfig, AppConfig}
use leftovers.Config.Floats.{Floats}
use leftovers.Config.Validate.Rules.{validate}
use leftovers.Config.Validate.Bounds.{validate-bounds}
use leftovers.Models.Stages.{preflight, sandbox_ready, planning, implementing, publishing, pr_open}
use leftovers.Text.Platform.{Platform}
use leftovers.Budget.Ledger.{BudgetReservation}
use leftovers.Orchestrator.Exec.{slot, publish, State}
use leftovers.Orchestrator.Exec.Count.{
  agents, Starts, Starts-bind, Starts-attempt, Starts-more, Starts-call, Starts-log, Starts-tell,
  Starts-set, Starts-pure, Starts-raise, Starts-raise_when, Starts-if, Starts-after,
}
use leftovers.Orchestrator.Services.{RankedCandidate, Services}
use leftovers.Orchestrator.Tasks.{Job}
use leftovers.Orchestrator.Repair.{Verified}
use leftovers.Orchestrator.Repair.Bound.{
  prompt_agent-Starts, enter-Starts, unchanged-Starts, repair_loop-Starts,
}
use leftovers.Orchestrator.Publish.{
  check_upstream, reserve_slot, publish_patch, complete_dry_run, approve, release,
}
use leftovers.Orchestrator.Cycle.{cycles_of, prepare, plan_work, implement, work}

module _ {Float W : Type 0} (platform : Platform) (services : Services Float W)
    (job : Job Float) where
  check_upstream-Starts : Starts 0 (check_upstream platform services job)
  unfolding check_upstream
  check_upstream-Starts = Starts-after (Starts-raise_when _ _) λ _.
      Starts-after (Starts-raise_when _ _) λ _. Starts-after (Starts-call _) λ fresh.
        Starts-after (Starts-raise_when _ _) λ _.
          Starts-after (Starts-raise_when _ _)
            λ _. Starts-after (Starts-call _) λ tip. Starts-raise_when _ _

  reserve_slot-Starts : Starts 0 (reserve_slot platform services job)
  unfolding reserve_slot
  reserve_slot-Starts =
      Starts-after (Starts-log slot)
        λ _. Starts-after (Starts-attempt (Starts-call _) λ e. Starts-raise _) λ _. Starts-call _

  publish_patch-Starts :
      (verified : Verified Float) → Starts 0 (publish_patch platform services job verified)
  unfolding publish_patch
  publish_patch-Starts verified = Starts-after (enter-Starts services publishing) λ _.
      Starts-after (Starts-call _) λ _. Starts-after (Starts-log publish) λ _.
        Starts-after (Starts-call _) λ published. Starts-after (Starts-set _) λ _.
          Starts-after (enter-Starts services pr_open) λ _.
            Starts-after (Starts-tell _)
              λ _. Starts-after (Starts-set _) λ _. Starts-after (Starts-call _) λ _. Starts-call _

  approve-Starts : (verified : Verified Float) → Starts 0 (approve platform services job verified)
  unfolding approve
  approve-Starts verified = Starts-after (Starts-call _) λ _. Starts-after (Starts-call _) λ final.
      Starts-after (unchanged-Starts platform services job _ final _) λ _.
        Starts-after (Starts-call _)
          λ _. Starts-after (Starts-tell _) λ _. Starts-after (Starts-tell _) λ _. Starts-call _

  release-Starts :
      (publish_flag : Bool) (verified : Verified Float)
      → Starts 0 (release platform services job publish_flag verified)
  unfolding release complete_dry_run
  release-Starts publish_flag verified = Starts-after (approve-Starts verified) λ _.
      Starts-if _
        (Starts-after check_upstream-Starts
          λ _. Starts-after reserve_slot-Starts λ _. publish_patch-Starts verified)
        (Starts-after (Starts-set _) λ _. Starts-call _)

module _ {Float W : Type 0} (platform : Platform) (services : Services Float W)
    (config : AppConfig Float) where
  work-Starts :
      (publish_flag : Bool) (repository : RepositoryConfig Float)
      (candidate : RankedCandidate Float) (reservation : BudgetReservation)
      → Starts
          (2 + 2 * cycles_of config.agent.max_repair_cycles)
          (work platform services config publish_flag repository candidate reservation)
  unfolding work prepare plan_work implement
  work-Starts publish_flag repository candidate reservation =
      Starts-after
        (Starts-after (enter-Starts services preflight) λ _. Starts-after (Starts-call _) λ _.
          Starts-after (Starts-call _) λ _. Starts-after (Starts-call _) λ base_sha.
            Starts-after (Starts-call _) λ _.
              Starts-after (enter-Starts services sandbox_ready) λ _.
                Starts-after (Starts-tell _) λ _. Starts-after (Starts-call _) λ _. Starts-pure _)
        λ job. Starts-more (omega arith) (
          Starts-bind 1 (1 + 2 * cycles_of config.agent.max_repair_cycles)
            (Starts-after (enter-Starts services planning) λ _.
              Starts-bind 1 0 (prompt_agent-Starts services _) λ plan.
                Starts-after (Starts-raise_when _ _)
                  λ _. Starts-after (Starts-raise_when _ _) λ _. Starts-pure plan)
            λ plan.
              Starts-bind 1 (2 * cycles_of config.agent.max_repair_cycles)
                (Starts-after (enter-Starts services implementing) λ _.
                  Starts-bind 1 0 (prompt_agent-Starts services _) λ implementation.
                    Starts-after (Starts-raise_when _ _) λ _. Starts-pure implementation)
                λ implementation. Starts-more (omega arith) (
                  Starts-bind (2 * cycles_of config.agent.max_repair_cycles) 0
                    (repair_loop-Starts platform services job _ 0 plan.payload
                      implementation.payload)
                    λ verified. release-Starts platform services job publish_flag verified))

cycles_of-le : (n : ℤ) → n ≤ℤ pos 3 → cycles_of n ≤ 4
unfolding ◌+ℤ◌
cycles_of-le n h = ground arith

-- Under a configuration that the validation accepts, whatever the agents, the tests, Git and GitHub
-- answer and whatever raises, one run starts at most ten agents: one that plans, one that
-- implements, and two in each of four cycles of verification.
pub work_starts_few_agents :
    {W : Type 0} (platform : Platform) (floats : Floats) (services : Services floats.Float W)
    (config : AppConfig floats.Float) (publish_flag : Bool)
    (repository : RepositoryConfig floats.Float) (candidate : RankedCandidate floats.Float)
    (reservation : BudgetReservation) (s : State floats.Float W)
    → validate platform floats config ≡ ok tt
    → agents (work platform services config publish_flag repository candidate reservation s).1.calls
      ≤ agents s.calls + 10
work_starts_few_agents platform floats services config publish_flag repository candidate reservation
      s accepted =
    let (_, (_, _, _, (_, most)), _, _) = validate-bounds platform floats config accepted in
    omega (
      arith,
      cycles_of-le config.agent.max_repair_cycles most,
      (work-Starts platform services config publish_flag repository candidate reservation).bound s,
    )
