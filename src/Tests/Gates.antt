-- ===== src/Tests/Gates.antt =====
-- The theorems on the deterministic gates, on a one-line change and on an issue that is eligible.
use leftovers.Base.{any, All, ℕ, ◌≡◌, refl, ◌↔◌, true, false, none, some, List, [], ◌∷◌, ◌++◌}
use leftovers.Base.Int.{pos}
use leftovers.Base.Text.{codes}
use leftovers.Models.{IssueCandidate, ScoreBreakdown}
use leftovers.Policy.Modes.{regular, Modes, mode_failures, IsPlainChange, mode_failures_iff}
use leftovers.Policy.Candidate.{candidate_gate}
use leftovers.Policy.Candidate.Eligible.{IsEligible, candidate_gate_iff}
use leftovers.Policy.Diff.{DiffInspection, diff_gate}
use leftovers.Policy.Diff.Laws.{IsAcceptable, diff_gate_iff}
use leftovers.Policy.Numstat.{
  split_from, split_on, record_lines, count_records, numstat_lines, is_binary,
  diff_gate_refuses_binary,
}
use leftovers.Tests.Samples.{whole_floats, plain, policy, repository, config}
use leftovers.Tests.Configs.{config_accepted}

abbrev pub small_diff : DiffInspection
small_diff = record {
  files = codes "src/a.py" ∷ [];
  added_lines = 1;
  deleted_lines = 0;
  patch = codes "+x";
  patch_truncated = false;
  invalid_utf8 = false;
  structural_failures = [];
}

diff_gate_iff_example :
    (diff_gate repository policy plain small_diff ≡ [])
    ↔ IsAcceptable repository policy plain small_diff
diff_gate_iff_example = diff_gate_iff repository policy plain small_diff

-- What `git diff --numstat -z` prints for one binary file, and the inspection of it.
abbrev binary_output : List ℕ
binary_output = codes "-" ++ b'\t' ∷ codes "-" ++ b'\t' ∷ codes "a.bin"

abbrev binary_diff : DiffInspection
binary_diff = record small_diff { added_lines = 1000000 }

counted_million : 1000000 ≡ (numstat_lines binary_output).0
unfolding numstat_lines count_records record_lines split_from
counted_million = refl

binary_found : any (λ r. is_binary (split_on b'\t' r)) (split_on 0 binary_output) ≡ true
unfolding split_from
binary_found = refl

diff_gate_refuses_binary_example : ¬ (diff_gate repository policy plain binary_diff ≡ [])
diff_gate_refuses_binary_example =
    diff_gate_refuses_binary plain whole_floats config repository binary_output binary_diff
      config_accepted binary_found counted_million

abbrev was_regular : Modes
was_regular f = some regular

mode_failures_iff_example :
    (mode_failures small_diff.files was_regular was_regular ≡ [])
    ↔ All (λ f. IsPlainChange (was_regular f) (was_regular f)) small_diff.files
mode_failures_iff_example = mode_failures_iff small_diff.files was_regular was_regular

abbrev pub issue : IssueCandidate
issue = record {
  repo = record {
    slug = "o/r";
    stars = pos 10;
    archived = false;
    disabled = false;
    license_spdx = some "MIT";
    default_branch = "main";
    pushed_at = none;
    open_issues = pos 1;
    forking_allowed = some true;
    pull_requests_enabled = some true;
    pull_request_creation_policy = some "ALL";
  };
  number = pos 3;
  node_id = "n";
  title = "typo";
  body = "fix it";
  url = "https://o/r/3";
  labels = "help" ∷ [];
  created_at = 1;
  updated_at = 2;
  comments = pos 0;
  reactions = pos 0;
  assignees = [];
  locked = false;
  author_association = "MEMBER";
  has_open_linked_pr = false;
  has_recent_claim = false;
  state = "open";
}

abbrev pub score : ScoreBreakdown ℕ
score = record {
  repository_impact = 0;
  urgency = 0;
  user_demand = 0;
  maintainer_signal = 0;
  tractability = 0;
  neglect = 0;
  technical_risk = 0;
  collision_risk = 0;
  scope_uncertainty = 0;
  total = pos 80;
  reasons = [];
}

candidate_gate_iff_example :
    (candidate_gate plain 120 issue score repository policy (pos 50) ≡ [])
    ↔ IsEligible plain 120 issue (pos 80) repository policy (pos 50)
candidate_gate_iff_example = candidate_gate_iff plain 120 issue score repository policy (pos 50)
