-- ===== src/Runner/Payload/Laws.antt =====
-- What a result that `_validate_agent_payload` accepts carries (src/leftovers/runner.py).
use leftovers.Base.{
  Bool-cases, ℕ, String, ◌≡◌, refl, ap, ◌∙◌, subst, inl, inr, Bool, true, false, Option, some, List,
  [], ◌∷◌, arith,
}
use leftovers.Base.Int.{pos, negsuc}
use leftovers.Base.Result.{ok, ◌>>=◌, ◌>>◌, >>=-eq-ok, ok-injective}
use leftovers.Base.Text.{str_eq, one_of, eq_iff}
use leftovers.Models.{AgentResult}
use leftovers.Models.Payload.{Json, bool, int, text, arr, nil, get, is_true}
use leftovers.Orchestrator.Repair.{is_approved}
use leftovers.Runner.Payload.{
  Checked, require, is_nil, list_where, string_list, is_count, in_set, text_of, choice, check_plan,
  items_of, is_array, check_review, evidence_or_reason, validate_planning, validate_review,
  validate_agent_payload,
}

-- Inversion of the steps.
pub require-ok :
    {A : Type 0} {next : Checked A} {a : A} (test : Bool) (message : String)
    → (require test message >> next) ≡ ok a
    → (test ≡ true) × (next ≡ ok a)
require-ok true message h = (refl, h)
require-ok false message h = cc

is_nil-eq : (v : Option Json) → is_array v ≡ true → is_nil (items_of v) ≡ true → v ≡ some (arr nil)
is_nil-eq (some (arr nil)) h k = refl
is_nil-eq v h k = cc

string_list-is_array : (v : Option Json) → string_list true v ≡ true → is_array v ≡ true
unfolding string_list list_where
string_list-is_array (some (arr xs)) h = refl
string_list-is_array v h = cc

is_true-eq : (v : Option Json) → is_true v ≡ true → v ≡ some (bool true)
is_true-eq (some (bool true)) h = refl
is_true-eq v h = cc

is_count-eq : (v : Option Json) → is_count v ≡ true → (n : ℕ) × (v ≡ some (int (pos n)))
unfolding is_count
is_count-eq (some (int (pos n))) h = (n, refl)
is_count-eq (some (int (negsuc n))) h = (0, ground arith)
is_count-eq v h = cc

-- A text is the only value that a set of texts has.
in_set-true :
    (names : List String) (v : Option Json)
    → in_set names v ≡ ok true
    → (v ≡ some (text (text_of v))) × (one_of (text_of v) names ≡ true)
in_set-true names (some (text s)) h = (refl, cc)
in_set-true names v h = cc

choice-ok :
    (names : List String) (message : String) (v : Option Json) {s : String}
    → choice names message v ≡ ok s
    → (v ≡ some (text s)) × (one_of s names ≡ true)
unfolding choice
choice-ok names message v h =
    let inner = >>=-eq-ok (in_set names v) _ h in
    let asked = require-ok _ message inner.2 in
    let found = in_set-true names v (inner.1 ∙ ap ok asked.0) in
    (
      found.0 ∙ ap (λ r. some (text r)) (ok-injective asked.1),
      subst (λ r. one_of r names ≡ true) (ok-injective asked.1) found.1,
    )

-- A choice with the rest of the checks, as every stage has it.
pub choose-ok :
    (names : List String) (message : String) (v : Option Json) (next : String → Checked (Unit {0}))
    {s : String}
    → (choice names message v >>= λ r. next r >> ok r) ≡ ok s
    → (v ≡ some (text s)) × (one_of s names ≡ true) × (next s ≡ ok tt)
choose-ok names message v next h =
    let chosen = >>=-eq-ok (choice names message v) (λ r. next r >> ok r) h in
    let checked = >>=-eq-ok (next chosen.0) (λ _. ok chosen.0) chosen.2 in
    let named = choice-ok names message v chosen.1 in
    subst (λ r. (v ≡ some (text r)) × (one_of r names ≡ true) × (next r ≡ ok tt))
      (ok-injective checked.2) (named.0, named.1, checked.1)

-- What the tests of an approving review come to.
check_review-approve :
    (payload : Json)
    → check_review "approve" payload ≡ ok tt
    → (is_array (get "findings" payload) ≡ true)
      × (string_list true (get "missing_verification" payload) ≡ true)
      × (is_nil (items_of (get "findings" payload)) ≡ true)
      × (is_nil (items_of (get "missing_verification" payload)) ≡ true)
      × (is_true (get "pr_claims_supported" payload) ≡ true)
unfolding check_review
check_review-approve payload h =
    (ground arith, ground arith, ground arith, ground arith, ground arith)

-- When a review is accepted as approving, the payload's own verdict approves, it has no finding,
-- misses no verification, and supports the claims of the pull request.
pub approve-settled :
    (payload : Json)
    → validate_agent_payload "review" payload ≡ ok "approve"
    → (get "verdict" payload ≡ some (text "approve"))
      × (get "findings" payload ≡ some (arr nil))
      × (get "missing_verification" payload ≡ some (arr nil))
      × (get "pr_claims_supported" payload ≡ some (bool true))
unfolding validate_agent_payload validate_review
approve-settled payload h =
    let chosen =
      choose-ok ("approve" ∷ "revise" ∷ "abandon" ∷ [])
        "review verdict must be approve, revise, or abandon" (get "verdict" payload)
        (λ s. check_review s payload) h in
    let settled = check_review-approve payload chosen.2 in
    (
      chosen.0,
      is_nil-eq _ settled.0 settled.2,
      is_nil-eq _ (string_list-is_array _ settled.1) settled.3,
      is_true-eq _ settled.4,
    )

-- When the result of a review was accepted, the controller's own test of it (`reviewed.status ==
-- "approve"`, the claims supported, nothing missing and no findings) comes to the test of its
-- verdict alone, whatever Python takes for a zero among the numbers with a fraction.
pub is_approved-eq :
    {Float : Type 0} (is_zero : String → Bool) (reviewed : AgentResult Float)
    → validate_agent_payload "review" reviewed.payload ≡ ok reviewed.status
    → is_approved is_zero reviewed ≡ str_eq reviewed.status "approve"
unfolding is_approved
is_approved-eq is_zero reviewed h = elim (Bool-cases (str_eq reviewed.status "approve")) [
  | inl same ↦
      let is = (eq_iff reviewed.status "approve").0 same in
      let settled = approve-settled reviewed.payload (h ∙ ap ok is) in
      rw (same, settled.1, settled.2, settled.3) refl
  | inr e ↦ rw e refl
]

check_plan-estimate :
    (payload : Json)
    → check_plan payload ≡ ok tt
    → is_count (get "estimated_remaining_tokens" payload) ≡ true
unfolding check_plan
check_plan-estimate payload h = ground arith

-- The plan of an accepted "planned" result names an estimate that is a number, not negative.
pub planned-estimate :
    (payload : Json)
    → validate_agent_payload "planning" payload ≡ ok "planned"
    → (n : ℕ) × (get "estimated_remaining_tokens" payload ≡ some (int (pos n)))
unfolding validate_agent_payload validate_planning
planned-estimate payload h =
    let chosen =
      choose-ok ("planned" ∷ "blocked" ∷ "failed" ∷ [])
        "planning result status must be planned, blocked, or failed" (get "status" payload)
        (λ s.
          evidence_or_reason (str_eq s "planned") (check_plan payload) payload
            "blocked or failed planning results require a reason")
        h in
    is_count-eq _ (check_plan-estimate payload chosen.2)
