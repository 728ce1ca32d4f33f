-- ===== src/Policy/Candidate/Eligible.antt =====
-- The gate as a whole against the conditions of eligibility.
use leftovers.Policy.Candidate.{
  GateFailure, ai_date_stale, ai_url_invalid, below_minimum, is_true, is_https, out_of_date,
  state_tests, scope_tests, candidate_gate, or_blank_text, date_failures, ai_failures,
}
use leftovers.Policy.Candidate.Laws.{
  true_iff, IsOpenToAll, open_iff, IsInScope, scope_iff, IsAllowedAi,
}
use leftovers.Base.{
  Bool-cases, flip_iff, when, append-eq-nil, when-eq-nil, reports, reports-eq-nil, ℕ, ◌≡◌, refl,
  sym, ◌∙◌, ◌↔◌, inl, inr, Bool, false, not, false≢true, Option, none, some, some-injective, List,
  [], ◌∷◌, ◌++◌,
}
use leftovers.Base.Int.{ℤ, ◌≤ℤ◌, ltb_ℤ, ltb_ℤ-false, ltb_ℤ_of_le}
use leftovers.Models.{IssueCandidate, ScoreBreakdown}
use leftovers.Config.{PolicyConfig, RepositoryConfig}
use leftovers.Text.Platform.{Platform}

-- The failures of the date, and of the address, and their absence.
date_iff :
    (today : ℕ) (max_age : ℤ) (date : Option ℕ)
    → (date_failures today max_age date ≡ [])
      ↔ ((checked : ℕ) × (date ≡ some checked) × (out_of_date today max_age checked ≡ false))
unfolding date_failures
date_iff today max_age none = (λ h. cc, λ h. cc (h.1))
date_iff today max_age (some checked) =
    let f = when-eq-nil (out_of_date today max_age checked) ai_date_stale in
    (λ h. (checked, refl, f.0 h), λ h. f.1 (rw (some-injective checked h.0 h.1) h.2))

module _ (platform : Platform) {Float : Type 0} where
  ai_iff :
      (today : ℕ) (policy : PolicyConfig) (repository : RepositoryConfig Float)
      → (ai_failures platform today policy repository ≡ [])
        ↔ IsAllowedAi platform today repository policy
  unfolding ai_failures
  ai_iff today policy repository =
      let date = platform.date_from_iso (or_blank_text repository.ai_policy_checked_at) in
      let dated = date_iff today policy.ai_policy_max_age_days date in
      let url = is_https repository.ai_policy_url in
      let both =
        append-eq-nil (date_failures today policy.ai_policy_max_age_days date)
          (when (not url) ai_url_invalid) in
      let listed = when-eq-nil (not url) ai_url_invalid in
      elim (Bool-cases (is_true repository.ai_contributions_allowed)) [
        | inl e ↦
            let allowed =
              (true_iff repository.ai_contributions_allowed).0
                ((flip_iff (is_true repository.ai_contributions_allowed)).1 e) in
            rw e (
              λ h. record {
                allowed = allowed;
                fresh = dated.0 (both.0 h).0;
                documented = (flip_iff url).0 (listed.0 (both.0 h).1);
              },
              λ h. both.1 (dated.1 h.fresh, listed.1 ((flip_iff url).1 h.documented)),
            )
        | inr e ↦ rw e (
          λ h. cc,
          λ h.
              let yes_true = (true_iff repository.ai_contributions_allowed).1 h.allowed in
              absurd (
                false≢true
                  (sym e ∙ (flip_iff (is_true repository.ai_contributions_allowed)).0 yes_true)),
        )
      ]

  -- All that makes an issue eligible on a day.
  pub record IsEligible (today : ℕ) (issue : IssueCandidate) (total : ℤ)
      (repository : RepositoryConfig Float) (policy : PolicyConfig) (minimum_score : ℤ)
      : Type 0 where
    pub open_to_all : IsOpenToAll platform issue repository policy
    pub in_scope : IsInScope platform issue repository policy
    pub ai_allowed : IsAllowedAi platform today repository policy
    pub scored : minimum_score ≤ℤ total

  -- The gate reports nothing exactly if the issue is eligible: GitHub confirms that it is open and
  -- that anyone may fork and contribute, its license, labels and text pass, nobody is at work on
  -- it, the operator has documented the AI policy recently, and the score reaches the minimum.
  pub candidate_gate_iff :
      (today : ℕ) (issue : IssueCandidate) (score : ScoreBreakdown Float)
      (repository : RepositoryConfig Float) (policy : PolicyConfig) (minimum_score : ℤ)
      → (candidate_gate platform today issue score repository policy minimum_score ≡ [])
        ↔ IsEligible today issue score.total repository policy minimum_score
  candidate_gate_iff today issue score repository policy minimum_score =
      let states = state_tests platform issue repository policy in
      let scopes = scope_tests platform issue repository policy in
      let ai = ai_failures platform today policy repository in
      let low = ltb_ℤ score.total minimum_score in
      let lows : List (Bool × GateFailure) = (low, below_minimum score.total minimum_score) ∷ [] in
      let first = append-eq-nil (reports states ++ reports scopes ++ ai) (reports lows) in
      let second = append-eq-nil (reports states ++ reports scopes) ai in
      let third = append-eq-nil (reports states) (reports scopes) in
      let state = reports-eq-nil states in
      let scope = reports-eq-nil scopes in
      let last = reports-eq-nil lows in
      let opened = open_iff platform issue repository policy in
      let scoped = scope_iff platform issue repository policy in
      let permitted = ai_iff today policy repository in
      unfold candidate_gate in
      (
        λ h.
            let (front, low_none) = first.0 h in
            let (gates, ai_none) = second.0 front in
            let (state_none, scope_none) = third.0 gates in
            record {
              open_to_all = opened.0 (state.0 state_none);
              in_scope = scoped.0 (scope.0 scope_none);
              ai_allowed = permitted.0 ai_none;
              scored = ltb_ℤ-false score.total minimum_score (last.0 low_none).0;
            },
        λ h. first.1 (
          second.1 (
            third.1 (state.1 (opened.1 h.open_to_all), scope.1 (scoped.1 h.in_scope)),
            permitted.1 h.ai_allowed,
          ),
          last.1 (ltb_ℤ_of_le score.total minimum_score h.scored, tt),
        ),
      )
