-- ===== src/Orchestrator/Repair/Steps.antt =====
-- What `verify` and `review` of `Orchestrator.Repair` have called when they give a value, and in which
-- world each call was made.
use leftovers.Base.{
  if◌then◌else◌, is_empty, ℕ, String, ◌≡◌, refl, sym, ap, ◌∙◌, subst, inl, inr, Bool, true, false,
  not, ◌||◌, some, List, [], ◌∷◌, arith,
}
use leftovers.Base.Text.{str_eq, eq_iff}
use leftovers.Models.{CommandResult, AgentResult}
use leftovers.Models.Payload.{Json}
use leftovers.Models.Stages.{verifying, reviewing, policy_denied}
use leftovers.Policy.Diff.{DiffInspection}
use leftovers.Text.Platform.{Platform}
use leftovers.Orchestrator.Exec.{fixed, Flow, done, State, pure, ◌>>=◌, attempt, raise_when, call}
use leftovers.Orchestrator.Exec.Runs.{
  Gives, call-Gives, bind-Gives, assoc-Gives, set-Gives, tell-Gives, log-Gives, raise_when-Gives,
  raise_when-done, pure-Gives, attempt-Gives, raise-Gives,
}
use leftovers.Orchestrator.Services.{
  transition, event, start_invocation, for_review, Task, Services,
}
use leftovers.Orchestrator.Tasks.{Job, run_agent, prompt_agent, aborted_with}
use leftovers.Orchestrator.Repair.{
  DiffInspection-discrete, same_diff, gate_failures, set_up, unchanged, verify, review,
}

empty_of : {A : Type 0} (xs : List A) → not (is_empty xs) ≡ false → xs ≡ []
empty_of [] h = refl
empty_of (x ∷ xs) h = cc

same_diff-eq : (a b : DiffInspection) → same_diff a b ≡ true → a ≡ b
same_diff-eq a b h = go (DiffInspection-discrete a b) h
  where
    go : (same : Dec (a ≡ b)) → elim same [ yes _ ↦ true | no _ ↦ false ] ≡ true → a ≡ b
    go (yes p) h = p
    go (no _) h = cc

module _ {Float W : Type 0} (platform : Platform) (services : Services Float W)
    (job : Job Float) where
  abbrev pub inspected : W → Flow DiffInspection × W
  inspected = services.inspect_diff job.config.policy.max_patch_bytes

  abbrev pub tested : ℕ → W → Flow (List (CommandResult Float)) × W
  tested cycle = services.run_commands (some cycle) job.repository.test_commands "none"

  -- The world once the results of the tests are recorded, and once a review is about to run.
  abbrev pub results_kept : W → W
  results_kept w =
      (services.append "test_results" (services.telemetry (event "verification" verifying) w)).1

  abbrev pub review_asked : W → W
  review_asked w =
      services.telemetry (start_invocation "review")
        (services.append "prompt" (services.telemetry (transition reviewing) w)).1

  -- The inspection right after the tests of a cycle that began in the world `before`, the Git base
  -- right after that, and the review right after that.
  abbrev pub seen : ℕ → W → Flow DiffInspection × W
  seen cycle before = inspected (results_kept (tested cycle before).1)

  abbrev pub based : ℕ → W → Flow String × W
  based cycle before = services.head (seen cycle before).1

  unchanged-Gives :
      (d after : DiffInspection) (message : String) (s t : State Float W)
      → Gives (unchanged platform services job d after message) s tt t
      → (after ≡ d)
        × ((services.head s.world).0 ≡ done job.base_sha)
        × (t.world ≡ (services.head s.world).1)
  unfolding unchanged
  unchanged-Gives d after message s t h = go (same_diff after d) (same_diff-eq after d) h
    where
      go :
          (same : Bool)
          → (same ≡ true → after ≡ d)
          → Gives
              ((if same then call services.head else pure job.base_sha) >>= λ head.
                raise_when
                  (not same || not (str_eq head job.base_sha))
                  (aborted_with policy_denied (fixed message)))
              s
              tt
              t
          → (after ≡ d)
            × ((services.head s.world).0 ≡ done job.base_sha)
            × (t.world ≡ (services.head s.world).1)
      go true sound h =
          let (head, answered, h1) = call-Gives services.head _ s h in
          let (found, at) = raise_when-done _ _ _ t h1 in
          let base = (eq_iff head job.base_sha).0 (ground arith) in
          (sound refl, cc, ap (λ u. u.world) (sym at))
      go false sound h =
          let (head, u, _, h1) = bind-Gives (pure job.base_sha) _ s h in
          let (differs, _) = raise_when-done _ _ u t h1 in cc

  prompt_agent-Gives :
      (task : Task Float) (s t : State Float W) (result : AgentResult Float)
      → Gives (prompt_agent services task) s result t
      → (services.run_agent task
          (services.telemetry (start_invocation task.stage) (services.append "prompt" s.world).1)).0
        ≡ done result
  unfolding prompt_agent run_agent call
  prompt_agent-Gives task s t result h =
      let (_, _, h1) = call-Gives (services.append "prompt") _ s h in
      let (found, u, asked, h2) = bind-Gives (run_agent services task) _ _ h1 in
      let (_, _, h3) = call-Gives (services.append "agent_result") _ u h2 in
      let (same, _) = pure-Gives found result _ t h3 in
      let tried = tell-Gives _ _ _ (log-Gives _ _ _ asked) in
      let (answer, v, ran, told) = bind-Gives (attempt _ _) _ _ tried in
      let (equal, _) = pure-Gives answer found _ u (tell-Gives _ _ v told) in
      elim (attempt-Gives _ _ _ ran) [
        | inl gave ↦ ap (λ p. p.0) gave ∙ ap done (equal ∙ same)
        | inr (e, w, _, handled) ↦ absurd (raise-Gives e _ (tell-Gives _ _ w handled))
      ]

  pub review-Gives :
      (plan report : Json) (d : DiffInspection) (tests : List (CommandResult Float))
      (s t : State Float W) (reviewed : AgentResult Float)
      → Gives (review platform services job plan report d tests) s reviewed t
      → (services.run_agent
          record {
            stage = "review";
            prior = for_review plan report d.patch tests;
            read_only_workspace = true;
          }
          (review_asked s.world)).0
        ≡ done reviewed
  unfolding review prompt_agent run_agent
  review-Gives plan report d tests s t reviewed h =
      let started = tell-Gives _ _ _ (set-Gives _ _ s (assoc-Gives _ _ _ s h)) in
      let (result, u, asked, told) = bind-Gives (prompt_agent services _) _ _ started in
      let (same, _) = pure-Gives result reviewed _ t (tell-Gives _ _ u told) in
      prompt_agent-Gives _ _ u result asked ∙ ap done same

  pub verify-Gives :
      (cycle : ℕ) (d : DiffInspection) (s t : State Float W) (results : List (CommandResult Float))
      → Gives (verify platform services job cycle d) s results t
      → (before : W) × ((tested cycle before).0 ≡ done results)
        × ((seen cycle before).0 ≡ done d)
        × ((based cycle before).0 ≡ done job.base_sha)
        × (t.world ≡ (based cycle before).1)
        × (gate_failures platform services job d ≡ [])
  unfolding verify
  verify-Gives cycle d s t results h =
      let (ready, u, _, h1) =
        bind-Gives (set_up platform services job cycle) _ _
          (tell-Gives _ _ _ (set-Gives _ _ s (assoc-Gives _ _ _ s h))) in
      let (found, ran, h2) =
        call-Gives (tested cycle) _ _ (log-Gives _ _ _ (assoc-Gives _ _ _ u h1)) in
      let (kept, _, h3) =
        call-Gives (services.append "test_results") _ _ (tell-Gives _ _ _ (set-Gives _ _ _ h2)) in
      let (after, looked, h4) = call-Gives inspected _ _ h3 in
      let (clean, h5) = raise_when-Gives _ _ _ _ h4 in
      let (same, v, still, h6) = bind-Gives (unchanged platform services job d after _) _ _ h5 in
      let (equal, based_there, at) = unchanged-Gives d after _ _ v still in
      let (result, final) = pure-Gives found results v t h6 in
      (
        u.world,
        ran ∙ ap done result,
        looked ∙ ap done equal,
        based_there,
        ap (λ u. u.world) (sym final) ∙ at,
        subst (λ d. gate_failures platform services job d ≡ []) equal (empty_of _ clean),
      )
