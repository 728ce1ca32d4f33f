-- ===== src/Orchestrator/Repair/Laws.antt =====
-- What `repair_loop` of `Orchestrator.Repair` ends with: the patch passed the gate, its tests passed
-- and its reviewer approved it, and which calls said so, in which order.
use leftovers.Base.{
  All, ℕ, zero, suc, ◌≡◌, refl, ap, subst, inl, inr, true, false, Option, some, List, [], ◌∷◌,
  arith,
}
use leftovers.Base.Text.{eq_iff}
use leftovers.Base.Int.{ℤ, pos, negsuc, eqb_ℤ}
use leftovers.Models.{CommandResult, AgentResult}
use leftovers.Models.Payload.{Json, bool, get, is_true, is_falsy}
use leftovers.Policy.Diff.{DiffInspection}
use leftovers.Text.Platform.{Platform}
use leftovers.Orchestrator.Exec.{Flow, done, State}
use leftovers.Orchestrator.Exec.Runs.{
  Gives, bind-Gives, raise_when-Gives, pure-Gives, raise-Gives, if-Gives,
}
use leftovers.Orchestrator.Services.{for_review, Task, Services}
use leftovers.Orchestrator.Tasks.{Job}
use leftovers.Orchestrator.Repair.{
  Verified, any_failed, is_approved, gate_failures, gated_diff, verify, repair, review, repair_loop,
}
use leftovers.Orchestrator.Repair.Steps.{
  tested, review_asked, seen, based, review-Gives, verify-Gives,
}

eqb_ℤ-zero : (n : ℤ) → eqb_ℤ n (pos 0) ≡ true → n ≡ pos 0
eqb_ℤ-zero (pos n) h = let none : n ≡ 0 = ground arith in ap pos none
eqb_ℤ-zero (negsuc n) h = ground arith

All-passed :
    {Float : Type 0} (results : List (CommandResult Float))
    → any_failed results ≡ false
    → All (λ r. (r.exit_code ≡ pos 0) × (r.timed_out ≡ false)) results
All-passed [] h = tt
All-passed (r ∷ results) h =
    ((eqb_ℤ-zero r.exit_code (ground arith), ground arith), All-passed results (ground arith))

is_true-eq : (value : Option Json) → is_true value ≡ true → value ≡ some (bool true)
is_true-eq (some (bool true)) h = refl
is_true-eq value h = cc

module _ {Float W : Type 0} (platform : Platform) (services : Services Float W)
    (job : Job Float) where
  abbrev reviewer : Json → Json → Verified Float → Task Float
  reviewer plan report verified = record {
    stage = "review";
    prior = for_review plan report verified.diff.patch verified.tests;
    read_only_workspace = true;
  }

  abbrev judged : Json → Json → Verified Float → ℕ → W → Flow (AgentResult Float) × W
  judged plan report verified cycle before =
      services.run_agent (reviewer plan report verified)
        (review_asked platform services job (based platform services job cycle before).1)

  -- The reviewer approved: it says so, its claims are supported, and the lists of what is missing and
  -- of what it found are absent or empty.
  pub record Approves (reviewed : AgentResult Float) : Type 0 where
    pub status : reviewed.status ≡ "approve"
    pub supported : get "pr_claims_supported" reviewed.payload ≡ some (bool true)
    pub nothing_missing :
        is_falsy services.is_zero (get "missing_verification" reviewed.payload) ≡ true
    pub no_finding : is_falsy services.is_zero (get "findings" reviewed.payload) ≡ true

  -- What the code knows of a patch that it goes on to freeze. In the world `before` the commands of
  -- the repository ran without network and gave the results, which all passed. The inspection right
  -- after them gave this patch, which the gate accepts, with Git where it was; and right after that
  -- a reviewer, who was given this patch and these results and could not write to the workspace,
  -- approved.
  pub record IsVerified (verified : Verified Float) : Type 0 where
    pub no_failures : gate_failures platform services job verified.diff ≡ []
    pub cycle : ℕ
    pub before : W
    pub tests_ran : (tested platform services job cycle before).0 ≡ done verified.tests
    pub tests_passed : All (λ r. (r.exit_code ≡ pos 0) × (r.timed_out ≡ false)) verified.tests
    pub patch_unchanged : (seen platform services job cycle before).0 ≡ done verified.diff
    pub base_unchanged : (based platform services job cycle before).0 ≡ done job.base_sha
    pub plan : Json
    pub report : Json
    pub reviewed : AgentResult Float
    pub review_made : (judged plan report verified cycle before).0 ≡ done reviewed
    pub review_kept : verified.review ≡ reviewed.payload
    pub approves : Approves reviewed

  Approves-of :
      (reviewed : AgentResult Float)
      → is_approved services.is_zero reviewed ≡ true
      → Approves reviewed
  unfolding is_approved
  Approves-of reviewed h = record {
    status = (eq_iff reviewed.status "approve").0 (ground arith);
    supported = is_true-eq (get "pr_claims_supported" reviewed.payload) (ground arith);
    nothing_missing = ground arith;
    no_finding = ground arith;
  }

  approved-IsVerified :
      (cycle : ℕ) (plan report : Json) (d : DiffInspection) (results : List (CommandResult Float))
      (reviewed : AgentResult Float) (s t u : State Float W) (verified : Verified Float)
      → any_failed results ≡ false
      → Gives (verify platform services job cycle d) s results t
      → Gives (review platform services job plan report d results) t reviewed u
      → is_approved services.is_zero reviewed ≡ true
      → record { diff = d; tests = results; review = reviewed.payload } ≡ verified
      → IsVerified verified
  approved-IsVerified cycle plan report d results reviewed s t u verified passing ran judging good
        at =
      let (before, tests_ran, unchanged_there, based_there, world, clean) =
        verify-Gives platform services job cycle d s t results ran in
      let made = review-Gives platform services job plan report d results t u reviewed judging in
      subst IsVerified at record {
        no_failures = clean;
        cycle = cycle;
        before = before;
        tests_ran = tests_ran;
        tests_passed = All-passed results passing;
        patch_unchanged = unchanged_there;
        base_unchanged = based_there;
        plan = plan;
        report = report;
        reviewed = reviewed;
        review_made =
            subst
              (λ w.
                (services.run_agent
                  (reviewer plan report
                    record { diff = d; tests = results; review = reviewed.payload })
                  (review_asked platform services job w)).0
                ≡ done reviewed)
              world made;
        review_kept = refl;
        approves = Approves-of reviewed good;
      }

  -- When the loop gives a patch, then, however many cycles of repair there were: in some cycle the
  -- repository's test commands ran without network and gave the results that are kept with the patch,
  -- and all of them passed; the inspection right after them gave this patch, which the diff gate
  -- accepts, and Git's HEAD was the base; and right after that the reviewer, who was given this patch
  -- and these results in a workspace it could not write to, answered with the review that is kept. It
  -- approves, `pr_claims_supported` is true in it, and it names no missing verification and no finding.
  pub repair_loop-IsVerified :
      (left cycle : ℕ) (plan report : Json) (s t : State Float W) (verified : Verified Float)
      → Gives (repair_loop platform services job left cycle plan report) s verified t
      → IsVerified verified
  unfolding repair_loop
  repair_loop-IsVerified zero cycle plan report s t verified h = absurd (raise-Gives _ s h)
  repair_loop-IsVerified (suc left) cycle plan report s t verified h =
      let (d, s1, _, h1) = bind-Gives (gated_diff platform services job) _ s h in
      let (results, s2, ran, h2) = bind-Gives (verify platform services job cycle d) _ s1 h1 in
      elim (if-Gives (any_failed results) _ _ s2 h2) [
        | inl (_, h3) ↦
            let (_, h4) = raise_when-Gives _ _ _ s2 h3 in
            let (next, s3, _, h5) = bind-Gives (repair platform services job _ _) _ s2 h4 in
            repair_loop-IsVerified left (suc cycle) plan next s3 t verified h5
        | inr (passing, h3) ↦
            let (reviewed, s3, judging, h4) =
              bind-Gives (review platform services job plan report d results) _ s2 h3 in
            elim (if-Gives (is_approved services.is_zero reviewed) _ _ s3 h4) [
              | inl (good, h5) ↦
                  approved-IsVerified cycle plan report d results reviewed s1 s2 s3 verified passing
                    ran judging good (pure-Gives _ verified s3 t h5).0
              | inr (_, h5) ↦
                  let (_, h6) = raise_when-Gives _ _ _ s3 h5 in
                  let (next, s4, _, h7) = bind-Gives (repair platform services job _ _) _ s3 h6 in
                  repair_loop-IsVerified left (suc cycle) plan next s4 t verified h7
            ]
      ]
