-- ===== src/Runner/Monitor/Events.antt =====
-- `_validate_sequence`, `_emit` and `_consume` of src/leftovers/runner.py: one line of the adapter's
-- telemetry.
use leftovers.Base.{
  ltb, leb, if◌then◌else◌, length, any, is_empty, ℕ, suc, Bool, false, not, ◌&&◌, ◌||◌, Option,
  none, some, List, [], ◌∷◌, ◌++◌,
}
use leftovers.Base.Int.{ℤ, pos, ◌+ℤ◌, eqb_ℤ}
use leftovers.Base.Result.{ok, ◌>>=◌, ◌>>◌}
use leftovers.Base.Text.{str_eq, codes, str_len, is_blank}
use leftovers.Config.Ref.{is_control}
use leftovers.Config.Validate.{is_space_only}
use leftovers.Models.{Instant}
use leftovers.Models.Payload.{Json, bool, int, real, text, arr, get, is_object, is_text}
use leftovers.Runner.Payload.{Checked, require, all_items, text_of}
use leftovers.Runner.Complexity.{count_items, is_simple}
use leftovers.Runner.Monitor.{
  Telemetry, Python, Setting, telemetry_max_line_bytes, telemetry_max_events,
}
use leftovers.Runner.Monitor.Fields.{fail, parse_observed_at, require_keys, is_some}
use leftovers.Runner.Monitor.Usage.{usage_receipt}

-- `type(sequence) is int` and `sequence == self.sequence + 1`.
abbrev pub is_next : ℤ → Option Json → Bool
is_next sequence (some (int n)) = eqb_ℤ n (sequence +ℤ pos 1)
is_next sequence _ = false

unfoldable pub validate_sequence : Json → Telemetry → Checked Telemetry
validate_sequence event t = do
  require (is_next t.sequence (get "sequence" event)) "adapter telemetry sequence is not contiguous"
  require (leb (suc t.events) telemetry_max_events)
      "adapter telemetry exceeds the event count limit"
  ok (record t { sequence = t.sequence +ℤ pos 1; events = suc t.events })

-- `event.get("version") == 1`, which `True` and `1.0` also satisfy.
abbrev pub is_version : Python → Option Json → Bool
is_version python (some (int n)) = eqb_ℤ n (pos 1)
is_version python (some (bool b)) = b
is_version python (some (real literal)) = python.is_one literal
is_version python _ = false

-- Printable texts: of the check-in's names, and of its capabilities.
unfoldable pub is_name : Option Json → Bool
is_name (some (text s)) =
    not (is_space_only s) && leb (str_len s) 128 && not (any is_control (codes s))
is_name _ = false

abbrev pub is_capability : Json → Bool
is_capability (text s) = not (is_blank s) && leb (str_len s) 64 && not (any is_control (codes s))
is_capability _ = false

unfoldable pub are_capabilities : Option Json → Bool
are_capabilities (some (arr xs)) = leb (count_items xs) 32 && all_items is_capability xs
are_capabilities _ = false

unfoldable pub checkin : Setting → Json → Telemetry → Checked Telemetry
unfolding parse_observed_at is_name are_capabilities
checkin setting event t = do
  require_keys
      ("version" ∷ "sequence" ∷ "type" ∷ "provider" ∷ "model" ∷ "adapter_version" ∷ "capabilities"
        ∷ "observed_at" ∷ [])
      event
  require (not (is_some t.checkin_at)) "adapter emitted more than one model check-in"
  require (is_name (get "provider" event)) "adapter telemetry provider is invalid"
  require (is_name (get "model" event)) "adapter telemetry model is invalid"
  require (is_name (get "adapter_version" event)) "adapter telemetry adapter_version is invalid"
  require (are_capabilities (get "capabilities" event)) "adapter telemetry capabilities are invalid"
  require
      (str_eq (text_of (get "provider" event)) setting.agent.provider
        && str_eq (text_of (get "model" event)) setting.agent.model)
      "adapter model check-in does not match configured identity"
  observed ← parse_observed_at setting (get "observed_at" event)
  ok (record t { checkin_at = some observed; last_adapter_heartbeat_at = some observed })

-- `self.last_adapter_heartbeat_at and observed < self.last_adapter_heartbeat_at`.
abbrev pub moved_back : Option Instant → Instant → Bool
moved_back none observed = false
moved_back (some latest) observed = ltb observed latest

unfoldable pub heartbeat : Setting → Json → Telemetry → Checked Telemetry
unfolding parse_observed_at
heartbeat setting event t = do
  require_keys ("version" ∷ "sequence" ∷ "type" ∷ "observed_at" ∷ []) event
  require (is_some t.checkin_at) "adapter heartbeat arrived before model check-in"
  observed ← parse_observed_at setting (get "observed_at" event)
  require (not (moved_back t.last_adapter_heartbeat_at observed))
      "adapter heartbeat timestamps moved backwards"
  ok (record t { last_adapter_heartbeat_at = some observed })

-- The event's type decides.
unfoldable pub accept : Setting → Json → Telemetry → Checked Telemetry
unfolding checkin heartbeat usage_receipt
accept setting event t = do
  let kind = text_of (get "type" event)
  require (not (eqb_ℤ t.sequence (pos 1)) || str_eq kind "checkin")
      "adapter telemetry must begin with a model check-in"
  if str_eq kind "checkin"
      then checkin setting event t
      else if str_eq kind "heartbeat"
      then heartbeat setting event t
      else if str_eq kind "usage"
      then usage_receipt setting event t
      else fail "adapter telemetry event type is unsupported"

-- The four texts that name the limit a value passes are one text here.
unfoldable pub parse_line : Python → List ℕ → Checked Json
parse_line python line = do
  require (not (is_empty line) && leb (length line) telemetry_max_line_bytes)
      "adapter telemetry line is empty or oversized"
  event ← elim (python.loads line) [
    | none ↦ fail "adapter telemetry line is not strict JSON"
    | some event ↦ ok event
  ]
  require (is_object event) "adapter telemetry event must be an object"
  require (is_simple python.is_finite event) "agent result exceeds JSON complexity limits"
  ok event

abbrev pub check_version : Python → Json → Checked (Unit {0})
check_version python event =
    require (is_version python (get "version" event) && is_text (get "type" event))
      "adapter telemetry protocol version or event type is invalid"

-- `_emit`.
abbrev pub emit : Json → Telemetry → Telemetry
emit event t = record t { emitted = t.emitted ++ event ∷ [] }

unfoldable pub consume : Setting → List ℕ → Telemetry → Checked Telemetry
unfolding parse_line validate_sequence accept
consume setting line t = do
  event ← parse_line setting.python line
  counted ← validate_sequence event t
  check_version setting.python event
  accepted ← accept setting event counted
  ok (emit event accepted)
