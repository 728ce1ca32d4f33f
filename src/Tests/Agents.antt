-- ===== src/Tests/Agents.antt =====
-- The theorems on what agents send, with sample results and a telemetry of two lines.
use leftovers.Runner.Payload.Statuses.{
  is_status, validate_agent_payload-status, raised_by, validate_agent_payload-unhashable,
}
use leftovers.Runner.Monitor.Fields.{has_keys, is_some}
use leftovers.Config.Ref.{is_space, is_control}
use leftovers.Base.{
  leb, if◌then◌else◌, is_empty, ℕ, ◌≡◌, refl, true, false, ◌&&◌, Option, none, some, List, [], ◌∷◌,
  arith,
}
use leftovers.Base.Int.{pos, ◌+ℤ◌, ◌-ℤ◌}
use leftovers.Base.Result.{err, ok, ◌>>=◌}
use leftovers.Base.Text.{str_eq}
use leftovers.Models.{AgentResult}
use leftovers.Models.Payload.{Json, null, bool, int, text, arr, obj, nil, cons, end, field, get}
use leftovers.Runner.Payload.{
  type_error, list_where, string_list, choice, any_bad, check_review, validate_review,
  validate_agent_payload,
}
use leftovers.Runner.Payload.Laws.{approve-settled, is_approved-eq}
use leftovers.Runner.Complexity.{most_nodes, most_depth, is_simple}
use leftovers.Runner.Complexity.Laws.{size, height, shaped, is_simple-eq}
use leftovers.Runner.Monitor.{Monitor, started, aware, Setting}
use leftovers.Runner.Monitor.Laws.{IsSound}
use leftovers.Runner.Monitor.Poll.{Seen, feed, poll}
use leftovers.Runner.Monitor.Poll.Laws.{poll-IsSound, poll-final}
use leftovers.Runner.Monitor.Poll.Chunks.{feed-append}
use leftovers.Orchestrator.Failures.{failure_of}
use leftovers.Orchestrator.Repair.{is_approved}
use leftovers.Tests.Runs.{test_result}
use leftovers.Tests.Samples.{agent}

abbrev approving : Json
approving = obj (
    field "verdict" (text "approve") (
      field "findings" (arr nil)
        (field "missing_verification" (arr nil) (field "pr_claims_supported" (bool true) end))))

abbrev approved : AgentResult ℕ
approved = record {
  stage = "review";
  status = "approve";
  payload = approving;
  command = test_result;
  usage = none;
}

approved_ok : validate_agent_payload "review" approving ≡ ok "approve"
unfolding validate_agent_payload validate_review check_review choice any_bad string_list list_where
approved_ok = refl

approve-settled_example :
    (get "verdict" approving ≡ some (text "approve"))
    × (get "findings" approving ≡ some (arr nil))
    × (get "missing_verification" approving ≡ some (arr nil))
    × (get "pr_claims_supported" approving ≡ some (bool true))
approve-settled_example = approve-settled approving approved_ok

is_approved-eq_example : is_approved (λ s. false) approved ≡ str_eq "approve" "approve"
is_approved-eq_example = is_approved-eq (λ s. false) approved approved_ok

validate_agent_payload-status_example : is_status "review" "approve" ≡ true
validate_agent_payload-status_example =
    validate_agent_payload-status "review" approving "approve" approved_ok

abbrev listed : Json
listed = obj (field "verdict" (arr nil) end)

validate_agent_payload-unhashable_example :
    (validate_agent_payload "review" listed ≡ err type_error)
    × (failure_of false (raised_by type_error) ≡ none)
validate_agent_payload-unhashable_example =
    validate_agent_payload-unhashable listed (arr nil) false refl refl

abbrev nested : Json
nested = arr (cons (int (pos 1)) (cons (obj (field "a" null end)) nil))

is_simple-eq_example :
    is_simple (λ s. true) nested
    ≡ (leb (size nested) most_nodes && leb (height nested) most_depth && shaped (λ s. true) nested)
is_simple-eq_example = is_simple-eq (λ s. true) nested

-- A check-in, whose line the sample parser reads as the byte 1.
abbrev first_event : Json
first_event = obj (
    field "version" (int (pos 1)) (
      field "sequence" (int (pos 1)) (
        field "type" (text "checkin") (
          field "provider" (text "p") (
            field "model" (text "m") (
              field "adapter_version" (text "1")
                (field "capabilities" (arr nil) (field "observed_at" (text "now") end))))))))

abbrev sample_loads : List ℕ → Option Json
sample_loads line = if is_empty line then none else some first_event

abbrev setting : Setting
setting = record {
  python = record {
    loads = sample_loads;
    fromisoformat = λ s. some (aware 500);
    is_one = λ s. false;
    is_finite = λ s. true;
  };
  agent = record agent {
    provider = "p";
    model = "m";
    checkin_required = true;
    usage_reporting_required = false;
  };
  allow_synthetic_usage = false;
  now = 500;
  elapsed_over = λ n. false;
}

abbrev file : Seen
file = record {
  regular = true;
  links = 1;
  identity = (7, 8);
  size = 1;
  read = λ offset limit. some (1 ∷ []);
}

abbrev polled : Monitor
polled = record {
  offset = 1;
  buffer = [];
  file_identity = some (7, 8);
  telemetry = record {
    sequence = pos 1;
    events = 1;
    checkin_at = some 500;
    last_adapter_heartbeat_at = some 500;
    usage = none;
    emitted = first_event ∷ [];
  };
}

poll_ok : poll setting true (some file) started ≡ ok polled
unfolding poll ◌+ℤ◌ ◌-ℤ◌ is_simple has_keys is_space is_control
poll_ok = refl

started-IsSound : IsSound false started.telemetry
started-IsSound = record {
  sequence_eq = refl;
  events_le = omega arith;
  emitted_eq = refl;
  checked_in = refl;
  alive = refl;
  consistent = refl;
  reported_after = λ h. cc;
}

poll-IsSound_example : IsSound false polled.telemetry
poll-IsSound_example = poll-IsSound setting true (some file) started polled poll_ok started-IsSound

poll-final_example :
    (is_empty polled.buffer ≡ true)
    × (true ≡ true → is_some polled.telemetry.checkin_at ≡ true)
    × (false ≡ true → is_some polled.telemetry.usage ≡ true)
poll-final_example = poll-final setting (some file) started polled poll_ok

feed-append_example :
    feed setting (1 ∷ 10 ∷ 2 ∷ []) started
    ≡ (feed setting (1 ∷ []) started >>= feed setting (10 ∷ 2 ∷ []))
feed-append_example = feed-append setting (1 ∷ []) (10 ∷ 2 ∷ []) started
