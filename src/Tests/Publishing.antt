-- ===== src/Tests/Publishing.antt =====
-- The theorems on publications, with Git and GitHub answering as they do for one small patch.
use leftovers.Publisher.Release.Early.{Some}
use leftovers.Policy.Failure.{List-discrete, DiffFailure-discrete}
use leftovers.Base.{
  ◌==◌, if◌then◌else◌, length, is_empty, ℕ, ◌≤◌, String, ◌≡◌, refl, ◌↔◌, true, false, none, some,
  List, [], ◌∷◌, ◌++◌, arith, ℕ_discrete,
}
use leftovers.Base.Int.{pos}
use leftovers.Base.Text.{codes}
use leftovers.Models.Payload.{Json, null, bool, text, arr, obj, nil, cons, end, field}
use leftovers.Config.Ref.{is_space, is_control}
use leftovers.Orchestrator.Repair.{DiffInspection-discrete}
use leftovers.Publisher.Title.{safe_title}
use leftovers.Publisher.Title.Laws.{has_no_ascii_control, mentions_nobody, safe_title-harmless}
use leftovers.Publisher.Approval.{
  ApprovalBundle, Digests, approval_time, create_approval_bundle, validate_approval_metadata,
  assert_authorized,
}
use leftovers.Publisher.Approval.Laws.{
  IsValid, validate_approval_metadata_iff, validate-create, validate-unforged,
}
use leftovers.Publisher.Reconcile.{
  is_expected_fork, validate_open_pr_preflight, Expected, reconciled_pr_url,
}
use leftovers.Publisher.Reconcile.Laws.{IsOurs, reconciled_pr_url-IsOurs}
use leftovers.Publisher.Exec.{
  Action, checked, pushed, opened, Call, lift, ◌>>=◌, attempt, call, note,
}
use leftovers.Publisher.Tools.{Tools, Publication}
use leftovers.Publisher.Opening.Shown.{HasPr}
use leftovers.Publisher.Release.{expected_of, publish}
use leftovers.Publisher.Release.Laws.{publish-guarded, publish-HasPr}
use leftovers.Tests.Gates.{small_diff, issue}
use leftovers.Tests.Samples.{publication}
use leftovers.Base.Result.{ok}

abbrev digests : Digests
digests = record {
  sha256 = λ s. s;
  sha256_patch = λ p. "patch";
  dumps = λ j. "json";
  isoformat = λ at. "later";
  fromisoformat = λ s. some approval_time;
}

abbrev bundle : ApprovalBundle
bundle = record {
  run_id = "run";
  repository = "o/r";
  issue_number = pos 3;
  base_ref = "main";
  base_sha = "base";
  patch_sha256 = "patch";
  policy_hash = "json";
  approved_at = "later";
  expires_at = "later";
  bundle_hash = "json";
}

bundle_ok : validate_approval_metadata digests 10 bundle (some issue) (some "main") ≡ ok tt
unfolding validate_approval_metadata
bundle_ok = refl

validate_approval_metadata_iff_example :
    (validate_approval_metadata digests 10 bundle (some issue) (some "main") ≡ ok tt)
    ↔ IsValid digests 10 bundle issue "main"
validate_approval_metadata_iff_example =
    validate_approval_metadata_iff digests 10 bundle issue "main"

validate-create_example :
    validate_approval_metadata digests 10
      (create_approval_bundle digests 0 "run" issue "base" "main" (codes "+x") null)
      (some issue)
      (some "main")
    ≡ ok tt
validate-create_example =
    validate-create digests 0 10 "run" "base" "main" issue (codes "+x") null refl (omega arith)

validate-unforged_example : bundle ≡ bundle
validate-unforged_example =
    validate-unforged digests 10 bundle bundle issue issue "main" "main" (λ h. refl) bundle_ok
      bundle_ok refl

title_ok : safe_title 240 (codes "Hi @me\n") ≡ ok (codes "Hi @" ++ 8203 ∷ codes "me")
unfolding safe_title is_control is_space
title_ok = refl

safe_title-harmless_example :
    (is_empty (codes "Hi @" ++ 8203 ∷ codes "me") ≡ false)
    × (length (codes "Hi @" ++ 8203 ∷ codes "me") ≤ 240)
    × (has_no_ascii_control (codes "Hi @" ++ 8203 ∷ codes "me") ≡ true)
    × (mentions_nobody (codes "Hi @" ++ 8203 ∷ codes "me") ≡ true)
safe_title-harmless_example =
    safe_title-harmless 240 (codes "Hi @me\n") (codes "Hi @" ++ 8203 ∷ codes "me") (omega arith)
      title_ok

abbrev pr_url : String
pr_url = "https://github.com/o/r/pull/7"

abbrev item : Json
item = obj (
    field "url" (text pr_url) (
      field "headRefOid" (text "c1") (
        field "baseRefName" (text "main") (
          field "isDraft" (bool true)
            (field "title" (text "Fix typo") (field "body" (text "body") end))))))

abbrev sought : Expected
sought = record {
  repository = "o/r";
  head_sha = "c1";
  base_branch = "main";
  title = codes "Fix typo";
  body = "body";
}

reconciled_ok : reconciled_pr_url sought (arr (cons item nil)) ≡ ok (some pr_url)
unfolding reconciled_pr_url
reconciled_ok = refl

reconciled_pr_url-IsOurs_example :
    (found : Json) × (arr (cons item nil) ≡ arr (cons found nil)) × IsOurs sought pr_url found
reconciled_pr_url-IsOurs_example =
    reconciled_pr_url-IsOurs sought (arr (cons item nil)) pr_url reconciled_ok

abbrev replies : {A : Type 0} → A → Call ℕ A
replies a w = (ok a, w)

-- The world is the number of commits made.
abbrev tools : Tools ℕ
tools = record {
  digests = digests;
  casefold = λ s. s;
  show = λ n. "3";
  encoded_length = λ p. 2;
  is_zero = λ s. false;
  now = replies 10;
  unsafe_configuration = replies false;
  head = λ w. (ok (some (if w == 0 then "base" else "c1")), w);
  inspect_diff = λ w. (ok (if w == 0 then small_diff else record small_diff { files = [] }), w);
  inspect_committed = λ base limit. replies small_diff;
  identity = replies ("octocat", pos 1);
  add_all = replies tt;
  commit = λ login user message w. (ok tt, 1);
  rev_parse = replies "c1";
  open_prs = λ login. replies (some (arr nil));
  view_fork = λ login. replies record {
    succeeded = true;
    output = some (
        obj (
          field "fork" (bool true)
            (field "parent" (obj (field "full_name" (text "o/r") end)) end)));
    not_found = false;
  };
  create_fork = replies tt;
  sleep = replies tt;
  view_branch =
      λ login branch. replies record { succeeded = false; output = none; not_found = true };
  authenticate = replies tt;
  push = λ login branch. replies tt;
  branch_prs = λ login branch strict.
      replies record { succeeded = true; output = some (arr nil); not_found = false };
  write_body = λ body. replies tt;
  create_pr = λ login branch title. replies (pr_url ∷ []);
  view_pr = λ url. replies (some item);
}

abbrev job : Publication ℕ
job = record { tools = tools; approval = bundle; issue = issue; base_branch = "main" }

publish-guarded_example :
    Some job
      (publish job publication true small_diff
        (codes "Fix typo")
        "body"
        (record { world = 0; trace = [] })).1.trace
publish-guarded_example =
    publish-guarded job publication true small_diff (codes "Fix typo") "body" 0

abbrev done_trace : List Action
done_trace = opened ∷ checked 10 "c1" (codes "+x") ∷ pushed ∷ checked 10 "c1" (codes "+x") ∷ []

publish_ok :
    publish job publication true small_diff
      (codes "Fix typo")
      "body"
      (record { world = 0; trace = [] })
    ≡ (
      ok record { branch = "leftovers/issue-3"; commit_sha = "c1"; pr_url = pr_url },
      record { world = 1; trace = done_trace },
    )
unfolding publish ◌>>=◌ lift assert_authorized call validate_approval_metadata safe_title is_control
    is_space DiffInspection-discrete List-discrete DiffFailure-discrete
    native.Mathlib.Decide.ℕ_discrete validate_open_pr_preflight is_expected_fork attempt note
    reconciled_pr_url
publish_ok = refl

publish-HasPr_example :
    (shown : List ℕ) × (safe_title 240 (codes "Fix typo") ≡ ok shown)
    × HasPr job "leftovers/issue-3" (expected_of job "c1" shown "body") pr_url
publish-HasPr_example =
    publish-HasPr job publication true small_diff (codes "Fix typo") "body" 0
      record { branch = "leftovers/issue-3"; commit_sha = "c1"; pr_url = pr_url }
      record { world = 1; trace = done_trace } publish_ok
