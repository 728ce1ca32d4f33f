-- ===== src/Runner/Monitor/Fields.antt =====
-- `_parse_observed_at` and `_require_keys` of src/leftovers/runner.py.
use leftovers.Base.{
  ltb, leb, if◌then◌else◌, all, ◌+◌, ◌*◌, String, Bool, true, false, ◌&&◌, ◌||◌, Option, none, some,
  List, [], ◌∷◌,
}
use leftovers.Base.Result.{err, ok, ◌>>◌}
use leftovers.Base.Text.{one_of, str_len}
use leftovers.Models.{Instant, second}
use leftovers.Models.Payload.{Json, text, obj, Fields, end, field}
use leftovers.Runner.Payload.{output_error, Checked, require}
use leftovers.Runner.Monitor.{Parsed, naive, aware, Setting}

abbrev pub fail : {A : Type 0} → String → Checked A
fail message = err (output_error message)

-- An age below a minute before the clock, or above a day behind it.
abbrev pub out_of_range : Instant → Instant → Bool
out_of_range now observed = ltb (now + 60 * second) observed || ltb (observed + 86400 * second) now

unfoldable pub parsed_at : Instant → Option Parsed → Checked Instant
parsed_at now none = fail "adapter telemetry observed_at is invalid"
parsed_at now (some naive) = fail "adapter telemetry observed_at must include a timezone"
parsed_at now (some (aware observed)) =
    if out_of_range now observed
    then fail "adapter telemetry observed_at is outside the accepted clock range"
    else ok observed

unfoldable pub parse_observed_at : Setting → Option Json → Checked Instant
unfolding parsed_at
parse_observed_at setting (some (text s)) = do
  require (leb (str_len s) 64) "adapter telemetry observed_at must be an ISO timestamp"
  parsed_at setting.now (setting.python.fromisoformat s)
parse_observed_at setting _ = fail "adapter telemetry observed_at must be an ISO timestamp"

abbrev pub field_names : Fields → List String
field_names end = []
field_names (field name v rest) = name ∷ field_names rest

-- `set(event) != required`.
unfoldable pub has_keys : List String → Json → Bool
has_keys required (obj fields) =
    all (λ k. one_of k required) (field_names fields)
    && all (λ k. one_of k (field_names fields)) required
has_keys required _ = false

abbrev pub require_keys : List String → Json → Checked (Unit {0})
require_keys required event =
    require (has_keys required event) "adapter telemetry event has unexpected fields"

abbrev pub is_some : {A : Type 0} → Option A → Bool
is_some none = false
is_some (some a) = true
