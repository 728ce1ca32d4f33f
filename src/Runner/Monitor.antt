-- ===== src/Runner/Monitor.antt =====
-- `_AdapterTelemetryMonitor` of src/leftovers/runner.py: its state, and what it reads it with. The
-- children check an event (Fields, Usage, Events), read the file (Poll) and state the laws.
pub mod Fields
pub mod Usage
pub mod Events
pub mod Poll
pub mod Laws
use leftovers.Base.{ℕ, String, Bool, Option, none, List, []}
use leftovers.Base.Int.{ℤ, pos}
use leftovers.Models.{Instant, TokenUsage}
use leftovers.Models.Payload.{Json}
use leftovers.Config.{AgentConfig}

-- The part of the monitor's fields that a line changes, and the whole.
pub record Telemetry : Type 0 where
  pub sequence : ℤ
  pub events : ℕ
  pub checkin_at : Option Instant
  pub last_adapter_heartbeat_at : Option Instant
  pub usage : Option TokenUsage
  -- The events passed to `callback`, in order.
  pub emitted : List Json

pub record Monitor : Type 0 where
  pub offset : ℕ
  pub buffer : List ℕ
  pub file_identity : Option (ℕ × ℕ)
  pub telemetry : Telemetry

-- `__init__`.
abbrev pub started : Monitor
started = record {
  offset = 0;
  buffer = [];
  file_identity = none;
  telemetry = record {
    sequence = pos 0;
    events = 0;
    checkin_at = none;
    last_adapter_heartbeat_at = none;
    usage = none;
    emitted = [];
  };
}

-- A `datetime` as it was parsed: without a time zone, or an instant.
pub data Parsed : Type 0 where
  naive : Parsed
  aware : Instant → Parsed

-- Python's library, as the monitor calls it: `json.loads` of a line (nothing if it raises),
-- `datetime.fromisoformat` of a text whose `Z` became `+00:00`, and two tests of a number with a
-- fraction: `== 1` and `math.isfinite`.
pub record Python : Type 0 where
  pub loads : List ℕ → Option Json
  pub fromisoformat : String → Option Parsed
  pub is_one : String → Bool
  pub is_finite : String → Bool

-- What a poll finds: the clock, `elapsed > n`, and whether the run permits synthetic usage.
pub record Setting : Type 0 where
  pub python : Python
  pub agent : AgentConfig
  pub allow_synthetic_usage : Bool
  pub now : Instant
  pub elapsed_over : ℤ → Bool

abbrev pub telemetry_max_bytes : ℕ
telemetry_max_bytes = 65536

abbrev pub telemetry_max_line_bytes : ℕ
telemetry_max_line_bytes = 4096

abbrev pub telemetry_max_events : ℕ
telemetry_max_events = 1024
