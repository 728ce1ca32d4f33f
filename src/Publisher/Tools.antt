-- ===== src/Publisher/Tools.antt =====
-- What the publisher of src/leftovers/publisher.py calls.
use leftovers.Base.{ltb, if◌then◌else◌, ℕ, String, Bool, false, Option, none, some, List}
use leftovers.Base.Int.{ℤ, eqb_ℤ}
use leftovers.Models.{Instant, IssueCandidate}
use leftovers.Models.Payload.{Json, text, get}
use leftovers.Policy.Diff.{DiffInspection}
use leftovers.Publisher.{PublishError, library_error, Published}
use leftovers.Publisher.Approval.{ApprovalBundle, Digests}
use leftovers.Publisher.Exec.{Step, Call, pure, refuse}
use leftovers.Base.Result.{err, ok}

-- A command's end: whether it succeeded, its output as JSON (nothing if that cannot be parsed), and
-- whether its error names HTTP 404 or "Not Found".
pub record Reply : Type 0 where
  pub succeeded : Bool
  pub output : Option Json
  pub not_found : Bool

-- The calls of Git and of GitHub's command line, and of `inspect_diff` and `inspect_committed_diff`;
-- each may also raise. `show` is `str` of an integer.
pub record Tools (W : Type 0) : Type 0 where
  pub digests : Digests
  pub casefold : String → String
  pub show : ℤ → String
  pub encoded_length : List ℕ → ℕ
  pub is_zero : String → Bool
  pub now : Call W Instant
  pub unsafe_configuration : Call W Bool
  pub head : Call W (Option String)
  pub inspect_diff : Call W DiffInspection
  pub inspect_committed : String → ℕ → Call W DiffInspection
  pub identity : Call W (String × ℤ)
  pub add_all : Call W (Unit {0})
  pub commit : String → ℤ → List ℕ → Call W (Unit {0})
  pub rev_parse : Call W String
  pub open_prs : String → Call W (Option Json)
  pub view_fork : String → Call W Reply
  pub create_fork : Call W (Unit {0})
  pub sleep : Call W (Unit {0})
  pub view_branch : String → String → Call W Reply
  pub authenticate : Call W (Unit {0})
  pub push : String → String → Call W (Unit {0})
  pub branch_prs : String → String → Bool → Call W Reply
  pub write_body : String → Call W (Unit {0})
  -- The lines of the output, with no white space at their ends.
  pub create_pr : String → String → List ℕ → Call W (List String)
  pub view_pr : String → Call W (Option Json)

pub record PublishResult : Type 0 where
  pub branch : String
  pub commit_sha : String
  pub pr_url : String

abbrev pub required : {W A : Type 0} → Option A → String → Step W A
required none message = refuse message
required (some a) message = pure a

abbrev pub text_option : Option String → Option Json
text_option none = none
text_option (some s) = some (text s)

-- The URL that was reconciled, or the error of the creation.
abbrev pub given : PublishError → Published (Option String) → Published String
given create_error (ok (some url)) = ok url
given create_error (err library_error) = err library_error
given create_error _ = err create_error

abbrev pub owner_login : Option Json → Option Json
owner_login none = none
owner_login (some owner) = get "login" owner

abbrev pub or_blank : Option String → String
or_blank none = ""
or_blank (some s) = s

abbrev pub is_user : Option ℤ → ℤ → Bool
is_user none user_id = false
is_user (some expected) user_id = eqb_ℤ user_id expected

-- `max(1, len(diff.patch.encode()))`.
abbrev pub patch_limit : {W : Type 0} → Tools W → DiffInspection → ℕ
patch_limit tools diff =
    if ltb 1 (tools.encoded_length diff.patch) then tools.encoded_length diff.patch else 1

-- What one publication works with.
pub record Publication (W : Type 0) : Type 0 where
  pub tools : Tools W
  pub approval : ApprovalBundle
  pub issue : IssueCandidate
  pub base_branch : String
