-- ===== src/Orchestrator/Selection.antt =====
-- `_run_cycle` of src/leftovers/orchestrator.py from the discovery to the selected candidate.
use leftovers.Base.{
  if◌then◌else◌, keep, String, Bool, true, false, Option, none, some, List, [], ◌∷◌,
}
use leftovers.Base.Text.{str_eq}
use leftovers.Config.{RepositoryConfig}
use leftovers.Models.{ref}
use leftovers.Models.Stages.{
  discovering, selected, deferred, skipped, failed, no_candidate, rate_limited, agent_failed,
}
use leftovers.Orchestrator.Exec.{
  Message, fixed, Raised, github_error, state_policy_error, other, Exec, pure, raise, ◌>>=◌, ◌>>◌,
  attempt, set_outcome, set_stage, call, tell,
}
use leftovers.Orchestrator.Services.{transition, set_target, RankedCandidate, Services}
use leftovers.Orchestrator.Tasks.{enter, append}
use leftovers.Orchestrator.Admission.{refuse}

-- `{repo.slug: repo for repo in repositories}[slug]`, where the last entry of a key is kept, and
-- `next(repo for repo in repositories if repo.slug == slug)`, which is the first.
abbrev pub last_repository :
    {Float : Type 0} → String → List (RepositoryConfig Float) → Option (RepositoryConfig Float)
last_repository slug [] = none
last_repository slug (r ∷ rs) =
    let later = last_repository slug rs in
    elim later [ some found ↦ some found | none ↦ if str_eq r.slug slug then some r else none ]

abbrev pub first_repository :
    {Float : Type 0} → String → List (RepositoryConfig Float) → Option (RepositoryConfig Float)
first_repository slug [] = none
first_repository slug (r ∷ rs) =
    let later = first_repository slug rs in if str_eq r.slug slug then some r else later

abbrev pub first_of : {A : Type 0} → List A → Option A
first_of [] = none
first_of (x ∷ xs) = some x

module _ {Float W : Type 0} (services : Services Float W) where
  abbrev pub no_read : {A : Type 0} → Raised → Exec Float W A
  no_read (github_error true s) =
      refuse services deferred rate_limited (fixed s) "github_read_failed"
  no_read (github_error false s) =
      refuse services failed agent_failed (fixed s) "github_read_failed"
  no_read e = raise e

  -- `check_available` raised: the candidate is passed over, with an entry of the journal.
  abbrev pub passed_over : Raised → Exec Float W Bool
  passed_over (state_policy_error s) = do append services "publication_preflight_denied"; pure false
  passed_over e = raise e

  abbrev pub or_key_error : {A : Type 0} → Option A → Exec Float W A
  or_key_error none = raise (other "KeyError")
  or_key_error (some a) = pure a

  -- Whether one eligible candidate may be published: the body of the loop over them.
  unfoldable pub may_publish :
      List (RepositoryConfig Float) → RankedCandidate Float → Exec Float W Bool
  may_publish repositories candidate = do
    repository ← or_key_error (last_repository candidate.issue.repo.slug repositories)
    let denied : Exec Float W Bool = do append services "publication_preflight_denied"; pure false
    let checked : Exec Float W Bool =
        attempt (call (services.check_available repository.slug) >> pure true) passed_over
    if repository.require_human_approval then denied else checked

  unfoldable pub first_publishable :
      List (RepositoryConfig Float)
      → List (RankedCandidate Float)
      → Exec Float W (Option (RankedCandidate Float))
  unfolding may_publish
  first_publishable repositories [] = pure none
  first_publishable repositories (c ∷ cs) = do
    good ← may_publish repositories c
    let rest = first_publishable repositories cs
    if good then pure (some c) else rest

  abbrev pub or_skip :
      Message → Option (RankedCandidate Float) → Exec Float W (RankedCandidate Float)
  or_skip message none = refuse services skipped no_candidate message "skipped"
  or_skip message (some c) = pure c

  unfoldable pub select :
      Bool → List (RepositoryConfig Float) → Exec Float W (RankedCandidate Float)
  unfolding first_publishable
  select publish_flag repositories = do
    enter services discovering
    append services "state"
    ranked ← attempt (call services.scout) no_read
    append services "candidates"
    let eligible_candidates = keep (λ (c : RankedCandidate Float). c.eligible) ranked
    found ←
        if publish_flag
        then (call services.open_publications >> first_publishable repositories eligible_candidates)
        else pure (first_of eligible_candidates)
    let message =
        if publish_flag
        then "no candidate passed deterministic policy and publication preflight gates"
        else "no candidate passed deterministic policy gates"
    candidate ← or_skip (fixed message) found
    set_outcome (λ o. record o {
      issue_ref = some (ref candidate.issue);
      score = some candidate.score.total;
    })
    set_stage selected
    tell (services.telemetry (set_target (ref candidate.issue)))
    tell (services.telemetry (transition selected))
    append services "selected"
    pure candidate
