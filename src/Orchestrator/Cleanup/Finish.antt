-- ===== src/Orchestrator/Cleanup/Finish.antt =====
-- When the `finally` of `_run_cycle` (src/leftovers/orchestrator.py) leaves a run complete: the calls
-- that prove the clean-up, and what the later calls leave of the outcome.
use leftovers.Base.{
  if◌then◌else◌, String, ◌≡◌, refl, sym, ap, ◌∙◌, subst, ◌↔◌, ◌⊎◌, inl, inr, Bool, true, false,
  ◌&&◌, ◌||◌, Option, none, some,
}
use leftovers.Base.Int.{ℤ}
use leftovers.Models.{RunOutcome}
use leftovers.Models.Stages.{RunStage, pr_open, cleaning, complete}
use leftovers.Orchestrator.Exec.{
  Message, Raised, runner_error, agent_output_error, workspace_error, os_error, Flow, done, raised,
  returned, State, Exec, pure, on_done, ◌>>=◌, ◌>>◌, rescue, get_outcome, call, tell,
}
use leftovers.Orchestrator.Exec.Runs.{
  Gives, call-Gives, bind-Gives, set-Gives, get-Gives, tell-Gives, pure-Gives,
}
use leftovers.Orchestrator.Exec.Keeps.{
  Keeps, Keeps-call, Keeps-tell, Keeps-pure, Keeps-bind, Keeps-rescue, Keeps-Gives, rescue-Gives,
}
use leftovers.Orchestrator.Services.{Mark, transition, record_budget, Services}
use leftovers.Orchestrator.Cleanup.{
  no_cleanup_error, unproven_containers, kept_workspace, no_audit_sink, no_storage, settle,
  containers_removed, workspace_removed, clean_up, close_ledger, finish_run,
}
use leftovers.Orchestrator.Cleanup.Laws.{settle_complete_iff}

-- A call, and a value that does not depend on its answer.
raised-then-pure :
    {Float W A B : Type 0} (p : Flow A × State Float W) (b : B) (e : Raised) (u : State Float W)
    → on_done (λ _. pure b) p ≡ (raised e, u)
    → p.0 ≡ raised e
raised-then-pure (done a, t) b e u h = let flow = ap (λ p. p.0) h in cc
raised-then-pure (raised d, t) b e u h = let flow = ap (λ p. p.0) h in cc
raised-then-pure (returned, t) b e u h = let flow = ap (λ p. p.0) h in cc

unproven_containers-false : (e : Raised) (b : Bool) → unproven_containers e ≡ some b → b ≡ false
unproven_containers-false (os_error text) b h = cc
unproven_containers-false (runner_error missing text) b h = cc
unproven_containers-false (agent_output_error text) b h = cc
unproven_containers-false e b h = cc

kept_workspace-false :
    (e : Raised) (b : Bool) (text : String) → kept_workspace e ≡ some (b, text) → b ≡ false
kept_workspace-false (os_error t) b text h = cc
kept_workspace-false (workspace_error t) b text h = cc
kept_workspace-false e b text h = cc

module _ {Float W : Type 0} (services : Services Float W) where
  containers-Gives :
      (s t : State Float W) (b : Bool)
      → Gives (containers_removed services) s b t
      → ((b ≡ true) ↔ ((services.cleanup_job s.world).0 ≡ done true))
        × (b ≡ true → t.world ≡ (services.cleanup_job s.world).1)
  unfolding call
  containers-Gives s t b h =
      elim (rescue-Gives unproven_containers (call services.cleanup_job) s h) [
        | inl gave ↦
            let answered : (services.cleanup_job s.world).0 ≡ done b = ap (λ p. p.0) gave in
            (
              (λ yes. cc (answered, yes), λ yes. cc (answered, yes)),
              λ _. sym (ap (λ p. p.1.world) gave),
            )
        | inr (e, u, broke, named) ↦
            let answered : (services.cleanup_job s.world).0 ≡ raised e = ap (λ p. p.0) broke in
            let no = unproven_containers-false e b named in
            ((λ yes. cc (no, yes), λ yes. cc (answered, yes)), λ yes. cc (no, yes))
      ]

  workspace-Gives :
      (s t : State Float W) (b : Bool) (text : String)
      → Gives (workspace_removed services) s (b, text) t
      → ((b ≡ true) ↔ ((services.cleanup_lease s.world).0 ≡ done tt))
  unfolding call ◌>>=◌
  workspace-Gives s t b text h = elim (rescue-Gives kept_workspace _ s h) [
    | inl gave ↦
        let (a, answered, rest) = call-Gives services.cleanup_lease _ s gave in
        let (same, _) = pure-Gives _ (b, text) _ t rest in
        let gone : true ≡ b = ap (λ p. p.0) same in (λ _. answered, λ _. sym gone)
    | inr (e, u, broke, named) ↦
        let answered =
          raised-then-pure (call services.cleanup_lease s) (true, no_cleanup_error) e u broke in
        let no = kept_workspace-false e b text named in
        (λ yes. cc (no, yes), λ yes. cc (answered, yes))
  ]

  close_ledger-Keeps : Keeps (close_ledger services)
  unfolding close_ledger get_outcome
  close_ledger-Keeps =
      Keeps-bind record { kept = λ s. refl }
        λ outcome.
          Keeps-bind (Keeps-rescue no_storage (Keeps-bind (Keeps-call _) λ _. Keeps-pure _))
            λ finished. closed finished
    where
      told :
          (reserved : Option ℤ)
          → Keeps {Float = Float} (elim reserved as (λ _. Exec Float W (Unit {0})) [
            | none ↦ pure tt
            | some n ↦ tell (services.telemetry (record_budget "committed" n))
          ])
      told none = Keeps-pure tt
      told (some n) = Keeps-tell _

      closed :
          (finished : Option ℤ)
          → Keeps {Float = Float} (elim finished as (λ _. Exec Float W (Unit {0})) [
            | none ↦ pure tt
            | some _ ↦ do
              reserved ← rescue no_storage (do n ← call services.reserved_tokens; pure (some n))
              elim reserved [
                | none ↦ pure tt
                | some n ↦ tell (services.telemetry (record_budget "committed" n))
              ]
          ])
      closed none = Keeps-pure tt
      closed (some n) =
          Keeps-bind (Keeps-rescue no_storage (Keeps-bind (Keeps-call _) λ _. Keeps-pure _)) told

  -- The entries after the clean-up, and the telemetry before them.
  recorded-Keeps :
      (containers workspace : Bool)
      → Keeps {Float = Float} (
          tell (services.telemetry (Mark.cleanup containers workspace)) >>= λ _.
          rescue no_audit_sink (do
            call (services.append "state")
            call (
                services.append
                  (if containers && workspace then "cleanup_receipt" else "cleanup_failed"))))
  recorded-Keeps containers workspace =
      Keeps-bind (Keeps-tell _)
        λ _. Keeps-rescue no_audit_sink (Keeps-bind (Keeps-call _) λ _. Keeps-call _)

  -- The run was to be complete, and the calls of the clean-up that starts in the world `w` prove that
  -- the containers and then the workspace are gone.
  abbrev pub IsProven : W → RunStage → Type 0
  IsProven w before =
      let swept = services.cleanup_job (services.telemetry (transition cleaning) w) in
      (swept.0 ≡ done true)
      × ((services.cleanup_lease swept.1).0 ≡ done tt)
      × ((before ≡ pr_open) ⊎ (before ≡ complete))

  abbrev lease_step : Bool → Exec Float W (Bool × String)
  lease_step containers =
      if containers then workspace_removed services else pure (false, no_cleanup_error)

  lease_step-Keeps : (containers : Bool) → Keeps (lease_step containers)
  lease_step-Keeps true = Keeps-rescue kept_workspace (Keeps-bind (Keeps-call _) λ _. Keeps-pure _)
  lease_step-Keeps false = Keeps-pure _

  settled_iff :
      (containers workspace : Bool) (error : String) (w : W) (s u t : State Float W)
      (outcome : RunOutcome Float Message)
      → s.world ≡ services.telemetry (transition cleaning) w
      → Gives (containers_removed services) s containers u
      → Gives (lease_step containers) u (workspace, error) t
      → ((settle containers workspace error outcome.stage outcome).stage ≡ complete)
        ↔ IsProven w outcome.stage
  settled_iff true workspace error w s u t outcome at swept leased =
      let (gone, world) = containers-Gives s u true swept in
      let removed = workspace-Gives u t workspace error leased in
      let iff = settle_complete_iff true workspace error outcome in
      subst
        (λ v. ((settle true workspace error outcome.stage outcome).stage ≡ complete) ↔ (
          ((services.cleanup_job v).0 ≡ done true)
          × ((services.cleanup_lease (services.cleanup_job v).1).0 ≡ done tt)
          × ((outcome.stage ≡ pr_open) ⊎ (outcome.stage ≡ complete))))
        at
        (
          λ h. (
            gone.0 refl,
            subst (λ v. (services.cleanup_lease v).0 ≡ done tt) (world refl)
                (removed.0 (iff.0 h).0),
            (iff.0 h).1,
          ),
          λ h. iff.1 (
            removed.1 (subst (λ v. (services.cleanup_lease v).0 ≡ done tt) (sym (world refl)) h.1),
            h.2,
          ),
        )
  settled_iff false workspace error w s u t outcome at swept leased =
      let (gone, _) = containers-Gives s u false swept in
      let iff = settle_complete_iff false workspace error outcome in
      let proven : ((services.cleanup_job s.world).0 ≡ done true) → false ≡ true = gone.1 in
      (
        λ h. let both = (iff.0 h).0 in cc,
        λ h.
            let no = proven (subst (λ v. (services.cleanup_job v).0 ≡ done true) (sym at) h.0) in
            cc,
      )

  clean_up_iff :
      (s t : State Float W)
      → Gives (clean_up services) s tt t
      → (t.outcome.stage ≡ complete) ↔ IsProven s.world s.outcome.stage
  unfolding clean_up
  clean_up_iff s t h =
      let (containers, u, swept, h1) =
        bind-Gives (containers_removed services) _ _ (tell-Gives _ _ s (get-Gives _ s h)) in
      let ((workspace, error), v, leased, h2) = bind-Gives (lease_step containers) _ u h1 in
      let h3 = set-Gives (settle containers workspace error s.outcome.stage) _ v h2 in
      let same : v.outcome ≡ s.outcome =
        Keeps-Gives (lease_step-Keeps containers) leased
        ∙ Keeps-Gives (Keeps-rescue unproven_containers (Keeps-call _)) swept in
      let kept = Keeps-Gives (recorded-Keeps containers workspace) h3 in
      let stage : (settle containers workspace error s.outcome.stage s.outcome).stage
          ≡ t.outcome.stage =
        cc (kept, same) in
      subst (λ at. (at ≡ complete) ↔ IsProven s.world s.outcome.stage) stage
        (settled_iff containers workspace error s.world _ u v s.outcome refl swept leased)

  -- When the last block of a run has a workspace to clean up and raises nothing, it leaves the run
  -- `complete` exactly if `cleanup_job` answered that the containers are gone, `cleanup` of the lease
  -- then returned, and the run had opened its pull request or completed its dry run before. The
  -- entries of the journal and the ledger that follow change nothing of that.
  pub finish_run_complete_iff :
      (entered : Bool) (s t : State Float W)
      → entered || services.lease_has_path s.world ≡ true
      → Gives (finish_run services entered) s tt t
      → (t.outcome.stage ≡ complete) ↔ IsProven s.world s.outcome.stage
  unfolding finish_run
  finish_run_complete_iff entered s t needed h =
      let (found, u, looked, h1) = bind-Gives looking _ s h in
      let is_needed : found ≡ true = cc (done-injective (ap (λ p. p.0) looked), needed) in
      let same : s ≡ u = ap (λ p. p.1) looked in
      let h2 =
        subst
          (λ b. Gives ((if b then clean_up services else pure tt) >> close_ledger services) u tt t)
          is_needed h1 in
      let (_, v, cleaned, closed) = bind-Gives (clean_up services) _ u h2 in
      let kept : v.outcome ≡ t.outcome = sym (Keeps-Gives close_ledger-Keeps closed) in
      subst (λ o. (o.stage ≡ complete) ↔ IsProven s.world s.outcome.stage) kept
        (subst (λ r. (v.outcome.stage ≡ complete) ↔ IsProven r.world r.outcome.stage) (sym same)
          (clean_up_iff u v cleaned))
    where
      looking : Exec Float W Bool
      looking s = (done (entered || services.lease_has_path s.world), s)

      done-injective : {a b : Bool} → (done a ≡ done b) → a ≡ b
      done-injective h = cc
