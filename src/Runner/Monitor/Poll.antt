-- ===== src/Runner/Monitor/Poll.antt =====
-- `poll` of src/leftovers/runner.py: the new part of the telemetry file, line by line, and the clocks.
pub mod Chunks
pub mod Laws
use leftovers.Runner.Monitor.Fields.{is_some}
use leftovers.Base.{
  leb, ◌==◌, if◌then◌else◌, length, is_empty, ℕ, ◌+◌, ◌-◌, Bool, true, false, not, ◌&&◌, ◌||◌,
  Option, none, some, List, [], ◌∷◌, ◌++◌,
}
use leftovers.Base.Int.{pos, ◌-ℤ◌, ltb_ℤ}
use leftovers.Base.Result.{err, ok, ◌>>=◌, ◌>>◌}
use leftovers.Budget.Gate.{seconds}
use leftovers.Models.{Instant}
use leftovers.Runner.Payload.{io_error, Checked, require}
use leftovers.Runner.Monitor.{Telemetry, Monitor, Setting, telemetry_max_bytes}
use leftovers.Runner.Monitor.Events.{consume}

-- What `lstat` finds, and what `open`, `lseek` and `read` give for an offset and a limit (nothing if
-- they raise `OSError`); the file may have grown in between.
pub record Seen : Type 0 where
  pub regular : Bool
  pub links : ℕ
  pub identity : ℕ × ℕ
  pub size : ℕ
  pub read : ℕ → ℕ → Option (List ℕ)

-- `buffer.split(b"\n")`, whose last part stays in the buffer: the lines before it, and that part.
unfoldable pub cut : List ℕ → List ℕ → List (List ℕ) × List ℕ
cut part [] = ([], part)
cut part (c ∷ s) =
    let next = cut [] s in
    let more = cut (part ++ c ∷ []) s in if c == 10 then (part ∷ next.0, next.1) else more

unfoldable pub consume_all : Setting → List (List ℕ) → Telemetry → Checked Telemetry
unfolding consume
consume_all setting [] t = ok t
consume_all setting (line ∷ lines) t = do
  next ← consume setting line t
  consume_all setting lines next

-- A chunk joins the buffer, and its whole lines are consumed.
unfoldable pub feed : Setting → List ℕ → Monitor → Checked Monitor
unfolding cut consume_all
feed setting chunk m = do
  let parts = cut [] (m.buffer ++ chunk)
  telemetry ← consume_all setting parts.0 m.telemetry
  ok (record m { offset = m.offset + length chunk; buffer = parts.1; telemetry = telemetry })

abbrev pub same_file : Option (ℕ × ℕ) → ℕ × ℕ → Bool
same_file none identity = true
same_file (some (device, inode)) identity = device == identity.0 && inode == identity.1

unfoldable pub read_new : Setting → Option Seen → Monitor → Checked Monitor
unfolding feed
read_new setting none m = ok m
read_new setting (some info) m = do
  require (info.regular && info.links == 1) "adapter telemetry must be a single-link regular file"
  require (same_file m.file_identity info.identity)
      "adapter telemetry file identity changed during execution"
  require (leb m.offset info.size) "adapter telemetry was truncated during execution"
  require (leb info.size telemetry_max_bytes) "adapter telemetry exceeds the byte limit"
  chunk ← elim (info.read m.offset (telemetry_max_bytes - m.offset + 1)) [
    | none ↦ err io_error
    | some chunk ↦ ok chunk
  ]
  feed setting chunk (record m { file_identity = some info.identity })

-- The last poll consumes a line that has no end.
unfoldable pub flush : Setting → Bool → Monitor → Checked Monitor
unfolding consume
flush setting final m =
    if final && not (is_empty m.buffer)
    then (do
      telemetry ← consume setting m.buffer m.telemetry
      ok (record m { buffer = []; telemetry = telemetry }))
    else ok m

-- The age of the last sign of life is above the seconds that the configuration allows.
abbrev pub or_else : Option Instant → Option Instant → Option Instant
or_else none b = b
or_else (some a) b = some a

abbrev pub is_stale : Setting → Telemetry → Bool
is_stale setting t = elim (or_else t.last_adapter_heartbeat_at t.checkin_at) [
  | none ↦ false
  | some latest ↦
      ltb_ℤ (seconds setting.agent.heartbeat_timeout_seconds) (pos setting.now -ℤ pos latest)
]

unfoldable pub check_clocks : Setting → Bool → Telemetry → Checked (Unit {0})
check_clocks setting final t = do
  require
      (not (
        setting.agent.checkin_required
        && not (is_some t.checkin_at)
        && (final || setting.elapsed_over setting.agent.checkin_timeout_seconds)))
      "required adapter model check-in was not received"
  require (not (is_some t.checkin_at && not final && is_stale setting t))
      "adapter model heartbeat became stale"
  require (not (final && setting.agent.usage_reporting_required && not (is_some t.usage)))
      "required adapter usage receipt was not received"

unfoldable pub poll : Setting → Bool → Option Seen → Monitor → Checked Monitor
unfolding read_new flush check_clocks
poll setting final seen m = do
  new ← read_new setting seen m
  complete ← flush setting final new
  check_clocks setting final complete.telemetry
  ok complete
