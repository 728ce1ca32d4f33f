-- ===== src/Runner/Payload.antt =====
-- `_validate_agent_payload` of src/leftovers/runner.py: the contract of an agent's result, stage by
-- stage.
pub mod Laws
pub mod Statuses
use leftovers.Base.{
  leb, if◌then◌else◌, ℕ, String, Bool, true, false, not, ◌&&◌, ◌||◌, Option, none, some, List, [],
  ◌∷◌,
}
use leftovers.Base.Result.{Result, err, ok, raise_if, ◌>>=◌, ◌>>◌}
use leftovers.Base.Int.{pos, ltb_ℤ}
use leftovers.Base.Text.{str_eq, one_of, str_len}
use leftovers.Config.Validate.{is_space_only}
use leftovers.Models.Payload.{
  Json, null, int, text, arr, obj, Items, nil, cons, get, is_true, is_object, is_bool,
}

-- `AgentOutputError` with its text, the `TypeError` that Python raises when a list or an object
-- is looked up in a set, and the `OSError` of a file that cannot be read.
pub data PayloadError : Type 0 where
  output_error : String → PayloadError
  type_error : PayloadError
  io_error : PayloadError

abbrev pub Checked : Type 0 → Type 0
Checked A = Result PayloadError A

abbrev pub require : Bool → String → Checked (Unit {0})
require test message = raise_if (not test) (output_error message)

abbrev pub all_items : (Json → Bool) → Items → Bool
all_items p nil = true
all_items p (cons x xs) = p x && all_items p xs

abbrev pub is_nil : Items → Bool
is_nil nil = true
is_nil (cons x xs) = false

-- `nonempty_text(value)`; a missing key gives `None`, which is no text.
abbrev pub nonempty_text : Option Json → Bool
nonempty_text (some (text s)) = not (is_space_only s)
nonempty_text _ = false

-- `isinstance(value, list)`, `not value` unless that is allowed, and a test of each item.
unfoldable pub list_where : (Json → Bool) → Bool → Option Json → Bool
list_where p allow_empty (some (arr xs)) = (allow_empty || not (is_nil xs)) && all_items p xs
list_where p allow_empty _ = false

unfoldable pub string_list : Bool → Option Json → Bool
unfolding list_where
string_list = list_where (λ x. nonempty_text (some x))

-- `type(value) is int`, and `type(value) is not int or value < 0`.
abbrev pub is_int : Option Json → Bool
is_int (some (int n)) = true
is_int _ = false

unfoldable pub is_count : Option Json → Bool
is_count (some (int n)) = not (ltb_ℤ n (pos 0))
is_count _ = false

-- `value in names`: a list or an object has no hash.
abbrev pub in_set : List String → Option Json → Checked Bool
in_set names (some (arr xs)) = err type_error
in_set names (some (obj fields)) = err type_error
in_set names (some (text s)) = ok (one_of s names)
in_set names _ = ok false

abbrev pub text_of : Option Json → String
text_of (some (text s)) = s
text_of _ = ""

-- The status or verdict, which must be one of the names.
unfoldable pub choice : List String → String → Option Json → Checked String
choice names message v = do known ← in_set names v; require known message; ok (text_of v)

unfoldable pub has_text : String → Json → Bool
has_text key item = nonempty_text (get key item)

abbrev pub is_root_cause : Json → Bool
is_root_cause item = is_object item && has_text "path" item && has_text "evidence" item

abbrev pub is_command : Json → Bool
is_command item =
    is_object item
    && string_list false (get "argv" item)
    && is_int (get "exit_code" item)
    && has_text "summary" item

abbrev pub is_acceptance : Json → Bool
is_acceptance item = is_object item && has_text "criterion" item && has_text "evidence" item

unfoldable pub is_reproduction : Option Json → Bool
is_reproduction none = false
is_reproduction (some item) =
    is_object item && string_list false (get "argv" item) && has_text "observed" item

unfoldable pub check_plan : Json → Checked (Unit {0})
check_plan payload = do
  require (string_list false (get "acceptance_criteria" payload))
      "planning result requires non-empty acceptance_criteria evidence"
  require (string_list false (get "steps" payload))
      "planning result requires non-empty steps evidence"
  require (string_list false (get "stop_conditions" payload))
      "planning result requires non-empty stop_conditions evidence"
  require (string_list true (get "risks" payload)) "planning risks must be a string array"
  require (list_where (λ c. string_list false (some c)) false (get "tests" payload))
      "planning result requires non-empty test argv arrays"
  require (is_reproduction (get "reproduction" payload))
      "planned work requires concrete reproduction evidence"
  require (list_where is_root_cause false (get "root_cause" payload))
      "planned work requires concrete root-cause evidence"
  require (is_count (get "estimated_remaining_tokens" payload))
      "planning result has an invalid token estimate"

unfoldable pub check_implementation : Json → Checked (Unit {0})
check_implementation payload = do
  require (has_text "summary" payload) "implementation result requires a summary"
  require (string_list false (get "changed_files" payload))
      "implementation result requires changed file claims"
  require (list_where is_command true (get "commands" payload))
      "implementation command evidence has an invalid shape"
  require (list_where is_acceptance false (get "acceptance_criteria" payload))
      "implementation acceptance evidence has an invalid shape"
  require (string_list true (get "remaining_risks" payload))
      "implementation risks must be a string array"

-- A path is optional, and may be null.
abbrev pub is_path : Option Json → Bool
is_path none = true
is_path (some null) = true
is_path v = nonempty_text v

-- Whether a finding has a bad shape, read from left to right as `or` does.
unfoldable pub bad_finding : Json → Checked Bool
bad_finding (obj fields) = do
  known ← in_set ("blocker" ∷ "major" ∷ "minor" ∷ []) (get "severity" (obj fields))
  ok (
      not (
        known
        && has_text "summary" (obj fields)
        && has_text "evidence" (obj fields)
        && is_path (get "path" (obj fields))))
bad_finding _ = ok true

unfoldable pub any_bad : Items → Checked Bool
unfolding bad_finding
any_bad nil = ok false
any_bad (cons x xs) = do bad ← bad_finding x; let rest = any_bad xs; if bad then ok true else rest

abbrev pub items_of : Option Json → Items
items_of (some (arr xs)) = xs
items_of _ = nil

abbrev pub is_array : Option Json → Bool
is_array (some (arr xs)) = true
is_array _ = false

unfoldable pub check_review : String → Json → Checked (Unit {0})
unfolding any_bad
check_review verdict payload = do
  let findings = get "findings" payload
  let missing = get "missing_verification" payload
  let supported = get "pr_claims_supported" payload
  let settled = is_nil (items_of findings) && is_nil (items_of missing)
  require (is_array findings && string_list true missing)
      "review result requires findings and missing_verification arrays"
  bad ← any_bad (items_of findings)
  require (not bad) "review findings have an invalid evidence shape"
  require (is_bool supported) "review result requires a boolean pr_claims_supported"
  require (not (str_eq verdict "approve") || (settled && is_true supported))
      "an approving review must have no unresolved findings"
  require (str_eq verdict "approve" || not settled)
      "a non-approving review requires actionable evidence"

-- `status == good` has its evidence, and any other status a reason.
abbrev pub evidence_or_reason : Bool → Checked (Unit {0}) → Json → String → Checked (Unit {0})
evidence_or_reason good evidence payload message =
    if good then evidence else require (has_text "reason" payload) message

unfoldable pub is_short : ℕ → Option Json → Bool
is_short most v = nonempty_text v && leb (str_len (text_of v)) most

unfoldable pub validate_planning : Json → Checked String
unfolding choice check_plan
validate_planning payload = do
  status ←
      choice ("planned" ∷ "blocked" ∷ "failed" ∷ [])
        "planning result status must be planned, blocked, or failed" (get "status" payload)
  evidence_or_reason (str_eq status "planned") (check_plan payload) payload
      "blocked or failed planning results require a reason"
  ok status

unfoldable pub validate_implementation : Json → Checked String
unfolding choice check_implementation
validate_implementation payload = do
  status ←
      choice ("implemented" ∷ "blocked" ∷ "failed" ∷ [])
        "implementation status must be implemented, blocked, or failed" (get "status" payload)
  evidence_or_reason (str_eq status "implemented") (check_implementation payload) payload
      "blocked or failed implementation results require a reason"
  ok status

unfoldable pub validate_review : Json → Checked String
unfolding choice check_review
validate_review payload = do
  verdict ←
      choice ("approve" ∷ "revise" ∷ "abandon" ∷ [])
        "review verdict must be approve, revise, or abandon" (get "verdict" payload)
  check_review verdict payload
  ok verdict

unfoldable pub validate_pr_writer : Json → Checked String
validate_pr_writer payload = do
  require (is_short 240 (get "title" payload))
      "PR writer title must be a non-empty string of at most 240 characters"
  require (is_short 60000 (get "body" payload))
      "PR writer result must contain string title and body"
  ok "written"

unfoldable pub validate_agent_payload : String → Json → Checked String
unfolding validate_planning validate_implementation validate_review validate_pr_writer
validate_agent_payload stage payload =
    if str_eq stage "planning"
    then validate_planning payload
    else if str_eq stage "implementation"
    then validate_implementation payload
    else if str_eq stage "review"
    then validate_review payload
    else if str_eq stage "pr-writer"
    then validate_pr_writer payload
    else err (output_error "unsupported agent stage")
