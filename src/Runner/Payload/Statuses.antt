-- ===== src/Runner/Payload/Statuses.antt =====
-- Which status an accepted result of `_validate_agent_payload` has, and the exception that it raises
-- beside its own (src/leftovers/runner.py).
use leftovers.Base.{
  if◌then◌else◌, String, ◌≡◌, refl, sym, Bool, true, false, ◌&&◌, none, some, List, [], ◌∷◌, arith,
}
use leftovers.Base.Result.{err, ok}
use leftovers.Base.Text.{str_eq, one_of, eq_iff}
use leftovers.Models.Payload.{Json, arr, obj, get}
use leftovers.Orchestrator.Exec.{Raised, agent_output_error, os_error, other}
use leftovers.Orchestrator.Failures.{failure_of}
use leftovers.Runner.Payload.{
  PayloadError, output_error, type_error, io_error, in_set, choice, check_plan,
  check_implementation, check_review, evidence_or_reason, validate_planning,
  validate_implementation, validate_review, validate_pr_writer, validate_agent_payload,
}
use leftovers.Runner.Payload.Laws.{choose-ok}

-- The names that a stage's status may have.
unfoldable pub is_status : String → String → Bool
is_status stage status =
    if str_eq stage "planning"
    then one_of status ("planned" ∷ "blocked" ∷ "failed" ∷ [])
    else if str_eq stage "implementation"
    then one_of status ("implemented" ∷ "blocked" ∷ "failed" ∷ [])
    else if str_eq stage "review"
    then one_of status ("approve" ∷ "revise" ∷ "abandon" ∷ [])
    else str_eq stage "pr-writer" && str_eq status "written"

planning-status :
    (payload : Json) (status : String)
    → validate_planning payload ≡ ok status
    → one_of status ("planned" ∷ "blocked" ∷ "failed" ∷ []) ≡ true
unfolding validate_planning
planning-status payload status h =
    (choose-ok ("planned" ∷ "blocked" ∷ "failed" ∷ [])
      "planning result status must be planned, blocked, or failed" (get "status" payload)
      (λ s.
        evidence_or_reason (str_eq s "planned") (check_plan payload) payload
          "blocked or failed planning results require a reason")
      h).1

implementation-status :
    (payload : Json) (status : String)
    → validate_implementation payload ≡ ok status
    → one_of status ("implemented" ∷ "blocked" ∷ "failed" ∷ []) ≡ true
unfolding validate_implementation
implementation-status payload status h =
    (choose-ok ("implemented" ∷ "blocked" ∷ "failed" ∷ [])
      "implementation status must be implemented, blocked, or failed" (get "status" payload)
      (λ s.
        evidence_or_reason (str_eq s "implemented") (check_implementation payload) payload
          "blocked or failed implementation results require a reason")
      h).1

review-status :
    (payload : Json) (status : String)
    → validate_review payload ≡ ok status
    → one_of status ("approve" ∷ "revise" ∷ "abandon" ∷ []) ≡ true
unfolding validate_review
review-status payload status h =
    (choose-ok ("approve" ∷ "revise" ∷ "abandon" ∷ [])
      "review verdict must be approve, revise, or abandon" (get "verdict" payload)
      (λ s. check_review s payload) h).1

written-status :
    (payload : Json) (status : String)
    → validate_pr_writer payload ≡ ok status
    → str_eq status "written" ≡ true
unfolding validate_pr_writer
written-status payload status h =
    let written : "written" ≡ status = ground arith in (eq_iff status "written").1 (sym written)

-- The status of an accepted result is one that its stage names, and no other stage has a result.
pub validate_agent_payload-status :
    (stage : String) (payload : Json) (status : String)
    → validate_agent_payload stage payload ≡ ok status
    → is_status stage status ≡ true
unfolding validate_agent_payload is_status
validate_agent_payload-status stage payload status h =
    let planning = planning-status payload status in
    let implementation = implementation-status payload status in
    let review = review-status payload status in
    let written = written-status payload status in ground arith

-- `AgentOutputError` is an exception that the handlers name; `TypeError` is not.
abbrev pub raised_by : PayloadError → Raised
raised_by (output_error message) = agent_output_error message
raised_by type_error = other "TypeError"
raised_by io_error = os_error "OSError"

-- What `set` cannot hash.
abbrev pub is_unhashable : Json → Bool
is_unhashable (arr xs) = true
is_unhashable (obj fields) = true
is_unhashable _ = false

in_set-unhashable :
    (names : List String) (v : Json)
    → is_unhashable v ≡ true
    → in_set names (some v) ≡ err type_error
in_set-unhashable names (arr xs) h = refl
in_set-unhashable names (obj fields) h = refl
in_set-unhashable names v h = cc

-- A verdict that is a list or an object ends in `TypeError`, which is not the exception of a bad
-- result, and for which no handler of the run has a failure code.
pub validate_agent_payload-unhashable :
    (payload verdict : Json) (uncertain : Bool)
    → get "verdict" payload ≡ some verdict
    → is_unhashable verdict ≡ true
    → (validate_agent_payload "review" payload ≡ err type_error)
      × (failure_of uncertain (raised_by type_error) ≡ none)
unfolding validate_agent_payload validate_review choice failure_of
validate_agent_payload-unhashable payload verdict uncertain same h =
    (rw (same, in_set-unhashable ("approve" ∷ "revise" ∷ "abandon" ∷ []) verdict h) refl, refl)
