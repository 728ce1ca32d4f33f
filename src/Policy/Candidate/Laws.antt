-- ===== src/Policy/Candidate/Laws.antt =====
-- What an eligible issue is, condition by condition.
use leftovers.Policy.Candidate.{
  is_true, unrecognised, is_listed, equals, is_https, out_of_date, folded, common, issue_text,
  found_sensitive, state_tests, blocked_labels, scope_tests, or_blank_text,
}
use leftovers.Base.{
  or_iff, unless_iff, is_empty, All, ℕ, String, ◌≡◌, refl, ap, ◌↔◌, Bool, true, false, not, ◌&&◌,
  Option, none, some, some-injective, List, [], ◌∷◌, arith,
}
use leftovers.Base.Text.{str_eq, eq_iff}
use leftovers.Models.{IssueCandidate}
use leftovers.Config.{PolicyConfig, RepositoryConfig}
use leftovers.Text.Platform.{Platform}
use leftovers.Text.Patterns.{has_sensitive_scope}

equal_iff : (s t : String) → (not (str_eq s t) ≡ false) ↔ (s ≡ t)
equal_iff s t = (λ h. (eq_iff s t).0 (ground arith), λ h. rw ((eq_iff s t).1 h))

pub true_iff : (o : Option Bool) → (not (is_true o) ≡ false) ↔ (o ≡ some true)
true_iff none = (λ h. cc, λ h. cc)
true_iff (some true) = (λ h. refl, λ h. refl)
true_iff (some false) = (λ h. cc, λ h. cc)

equals_iff : (o : Option String) (t : String) → (not (equals o t) ≡ false) ↔ (o ≡ some t)
equals_iff none t = (λ h. cc, λ h. cc)
equals_iff (some s) t =
    let f = equal_iff s t in (λ h. ap some (f.0 h), λ h. f.1 (some-injective s t h))

-- A test on what holds unless `a` does.
if_iff : (a b : Bool) → ((not a && not b) ≡ false) ↔ (a ≡ false → b ≡ true)
if_iff true b = (λ h e. cc, λ h. refl)
if_iff false true = (λ h e. refl, λ h. refl)
if_iff false false = (λ h e. cc, λ h. cc (h refl))

invited_iff : (a b : Bool) → ((not a && b) ≡ false) ↔ (a ≡ false → b ≡ false)
invited_iff true b = (λ h e. cc, λ h. refl)
invited_iff false b = (λ h e. h, λ h. h refl)

empty_iff : {A : Type 0} (xs : List A) → (not (is_empty xs) ≡ false) ↔ (xs ≡ [])
empty_iff [] = (λ h. refl, λ h. refl)
empty_iff (x ∷ xs) = (λ h. cc, λ h. cc)

module _ (platform : Platform) {Float : Type 0} where
  -- GitHub confirms all that an outsider's pull request needs, and the license is acceptable.
  pub record IsOpenToAll (issue : IssueCandidate) (repository : RepositoryConfig Float)
      (policy : PolicyConfig) : Type 0 where
    pub state_open : issue.state ≡ "open"
    pub not_archived : issue.repo.archived ≡ false
    pub not_disabled : issue.repo.disabled ≡ false
    pub may_fork : issue.repo.forking_allowed ≡ some true
    pub may_pull : issue.repo.pull_requests_enabled ≡ some true
    pub anyone_may : issue.repo.pull_request_creation_policy ≡ some "ALL"
    pub licensed : policy.require_license ≡ true → unrecognised issue.repo.license_spdx ≡ false
    pub license_listed :
        is_empty repository.allowed_licenses ≡ false
        → is_listed issue.repo.license_spdx repository.allowed_licenses ≡ true
    pub not_locked : issue.locked ≡ false
    pub unassigned : policy.require_unassigned ≡ true → issue.assignees ≡ []
    pub no_linked_pr : policy.require_no_open_linked_pr ≡ true → issue.has_open_linked_pr ≡ false
    pub unclaimed : issue.has_recent_claim ≡ false

  pub open_iff :
      (issue : IssueCandidate) (repository : RepositoryConfig Float) (policy : PolicyConfig)
      → All (λ t. t.0 ≡ false) (state_tests platform issue repository policy)
        ↔ IsOpenToAll issue repository policy
  open_iff issue repository policy =
      let repo = issue.repo in
      let closed = or_iff repo.archived repo.disabled in
      let license = unless_iff policy.require_license (unrecognised repo.license_spdx) in
      let listed =
        if_iff (is_empty repository.allowed_licenses)
          (is_listed repo.license_spdx repository.allowed_licenses) in
      let nobody = unless_iff policy.require_unassigned (not (is_empty issue.assignees)) in
      let linked = unless_iff policy.require_no_open_linked_pr issue.has_open_linked_pr in
      (
        λ h. record {
          state_open = (equal_iff issue.state "open").0 h.0;
          not_archived = (closed.0 h.1.0).0;
          not_disabled = (closed.0 h.1.0).1;
          may_fork = (true_iff repo.forking_allowed).0 h.1.1.0;
          may_pull = (true_iff repo.pull_requests_enabled).0 h.1.1.1.0;
          anyone_may = (equals_iff repo.pull_request_creation_policy "ALL").0 h.1.1.1.1.0;
          licensed = license.0 h.1.1.1.1.1.0;
          license_listed = listed.0 h.1.1.1.1.1.1.0;
          not_locked = h.1.1.1.1.1.1.1.0;
          unassigned = λ e. (empty_iff issue.assignees).0 (nobody.0 (h.1.1.1.1.1.1.1.1.0) e);
          no_linked_pr = linked.0 h.1.1.1.1.1.1.1.1.1.0;
          unclaimed = h.1.1.1.1.1.1.1.1.1.1.0;
        },
        λ h. (
          (equal_iff issue.state "open").1 h.state_open,
          (
            closed.1 (h.not_archived, h.not_disabled),
            (
              (true_iff repo.forking_allowed).1 h.may_fork,
              (
                (true_iff repo.pull_requests_enabled).1 h.may_pull,
                (
                  (equals_iff repo.pull_request_creation_policy "ALL").1 h.anyone_may,
                  (
                    license.1 h.licensed,
                    (
                      listed.1 h.license_listed,
                      (
                        h.not_locked,
                        (
                          nobody.1 (λ e. (empty_iff issue.assignees).1 (h.unassigned e)),
                          (linked.1 h.no_linked_pr, (h.unclaimed, tt)),
                        ),
                      ),
                    ),
                  ),
                ),
              ),
            ),
          ),
        ),
      )

  -- Neither the labels nor the text point to a sensitive scope, a maintainer has invited the work
  -- where the operator asks for that, and there is a command to verify a patch with.
  pub record IsInScope (issue : IssueCandidate) (repository : RepositoryConfig Float)
      (policy : PolicyConfig) : Type 0 where
    pub none_denied : blocked_labels platform issue repository policy ≡ []
    pub none_sensitive : found_sensitive platform issue ≡ []
    pub plain_text :
        has_sensitive_scope platform.is_word platform.is_decimal (issue_text platform issue) ≡ false
    pub invited :
        is_empty (folded platform repository.allow_labels) ≡ false
        → is_empty (
            common platform
              (folded platform issue.labels)
              (folded platform repository.allow_labels))
          ≡ false
    pub verifiable : is_empty repository.test_commands ≡ false

  pub scope_iff :
      (issue : IssueCandidate) (repository : RepositoryConfig Float) (policy : PolicyConfig)
      → All (λ t. t.0 ≡ false) (scope_tests platform issue repository policy)
        ↔ IsInScope issue repository policy
  scope_iff issue repository policy =
      let blocked = empty_iff (blocked_labels platform issue repository policy) in
      let sensitive = empty_iff (found_sensitive platform issue) in
      let allowed = folded platform repository.allow_labels in
      let invited =
        invited_iff (is_empty allowed)
          (is_empty (common platform (folded platform issue.labels) allowed)) in
      (
        λ h. record {
          none_denied = blocked.0 h.0;
          none_sensitive = sensitive.0 h.1.0;
          plain_text = h.1.1.0;
          invited = invited.0 h.1.1.1.0;
          verifiable = h.1.1.1.1.0;
        },
        λ h. (
          blocked.1 h.none_denied,
          (sensitive.1 h.none_sensitive, (h.plain_text, (invited.1 h.invited, (h.verifiable, tt)))),
        ),
      )

  -- The operator has recorded, no longer ago than the policy allows, where the repository permits
  -- AI contributions.
  pub record IsAllowedAi (today : ℕ) (repository : RepositoryConfig Float) (policy : PolicyConfig)
      : Type 0 where
    pub allowed : repository.ai_contributions_allowed ≡ some true
    pub fresh :
        (checked : ℕ) × (platform.date_from_iso (or_blank_text repository.ai_policy_checked_at)
          ≡ some checked)
        × (out_of_date today policy.ai_policy_max_age_days checked ≡ false)
    pub documented : is_https repository.ai_policy_url ≡ true
