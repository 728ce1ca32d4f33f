-- ===== src/Runner/Monitor/Usage.antt =====
-- The usage receipt that `_consume` of src/leftovers/runner.py accepts.
use leftovers.Base.{String, Bool, false, not, ◌&&◌, ◌||◌, Option, some, List, [], ◌∷◌}
use leftovers.Base.Int.{ℤ, pos, ◌+ℤ◌, leb_ℤ, eqb_ℤ}
use leftovers.Base.Result.{ok, ◌>>=◌, ◌>>◌}
use leftovers.Base.Text.{str_eq, one_of}
use leftovers.Models.{Instant, TokenUsage}
use leftovers.Models.Payload.{Json, int, get, is_true, is_bool}
use leftovers.Runner.Payload.{Checked, require, in_set, text_of}
use leftovers.Runner.Monitor.{Telemetry, Setting}
use leftovers.Runner.Monitor.Fields.{parse_observed_at, require_keys, is_some}

abbrev pub is_amount : Option Json → Bool
is_amount (some (int n)) = leb_ℤ (pos 0) n && leb_ℤ n (pos 1000000000)
is_amount _ = false

abbrev pub amount : Option Json → ℤ
amount (some (int n)) = n
amount _ = pos 0

abbrev pub telemetry_sources : List String
telemetry_sources =
    "provider_response" ∷ "broker_attested" ∷ "adapter_reported" ∷ "estimated" ∷ "synthetic" ∷ []

-- The receipt's numbers, read as the code's `values`.
abbrev pub receipt : Json → Instant → TokenUsage
receipt event observed = record {
  input_tokens = amount (get "input_tokens" event);
  output_tokens = amount (get "output_tokens" event);
  cached_input_tokens = amount (get "cached_input_tokens" event);
  reasoning_tokens = amount (get "reasoning_tokens" event);
  total_tokens = amount (get "total_tokens" event);
  source = text_of (get "source" event);
  exact = is_true (get "exact" event);
  reported_at = observed;
}

unfoldable pub check_amounts : Json → Checked (Unit {0})
check_amounts event = do
  let input = amount (get "input_tokens" event)
  let output = amount (get "output_tokens" event)
  require
      (is_amount (get "input_tokens" event)
        && is_amount (get "output_tokens" event)
        && is_amount (get "cached_input_tokens" event)
        && is_amount (get "reasoning_tokens" event)
        && is_amount (get "total_tokens" event))
      "adapter token usage values are invalid"
  require (leb_ℤ (amount (get "cached_input_tokens" event)) input)
      "cached input tokens exceed input tokens"
  require (leb_ℤ (amount (get "reasoning_tokens" event)) output)
      "reasoning tokens exceed output tokens"
  require (eqb_ℤ (amount (get "total_tokens" event)) (input +ℤ output))
      "adapter total tokens do not equal input plus output"

unfoldable pub check_source : Setting → Json → Checked (Unit {0})
check_source setting event = do
  let source = text_of (get "source" event)
  let exact = is_true (get "exact" event)
  known ← in_set telemetry_sources (get "source" event)
  require (known && is_bool (get "exact" event) && is_true (get "final" event))
      "adapter usage source, exactness, or finality is invalid"
  require (not (str_eq source "synthetic") || setting.allow_synthetic_usage)
      "synthetic adapter usage is permitted only in an explicit training run"
  require (not (str_eq source "estimated" && exact)) "estimated usage cannot be marked exact"
  require (not (one_of source ("provider_response" ∷ "broker_attested" ∷ [])) || exact)
      "provider-attested usage must be marked exact"

unfoldable pub usage_receipt : Setting → Json → Telemetry → Checked Telemetry
unfolding parse_observed_at check_amounts check_source
usage_receipt setting event t = do
  require_keys
      ("version" ∷ "sequence" ∷ "type" ∷ "input_tokens" ∷ "output_tokens" ∷ "cached_input_tokens"
        ∷ "reasoning_tokens" ∷ "total_tokens" ∷ "source" ∷ "exact" ∷ "final" ∷ "observed_at" ∷ [])
      event
  require (is_some t.checkin_at) "adapter usage arrived before model check-in"
  require (not (is_some t.usage)) "adapter emitted more than one final usage receipt"
  check_amounts event
  check_source setting event
  observed ← parse_observed_at setting (get "observed_at" event)
  ok (record t { usage = some (receipt event observed) })
