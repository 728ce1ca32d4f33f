-- ===== src/Runner/Monitor/Laws.antt =====
-- What the monitor's state satisfies after any lines that `_consume` accepts
-- (src/leftovers/runner.py).
use leftovers.Runner.Monitor.Usage.{
  amount, telemetry_sources, receipt, check_amounts, check_source, usage_receipt,
}
use leftovers.Runner.Monitor.Fields.{parse_observed_at, is_some}
use leftovers.Runner.Payload.Laws.{require-ok}
use leftovers.Base.{
  ltb, length, length-append, ℕ, suc, ◌+◌, ◌≤◌, ◌≡◌, refl, sym, ap, ◌∙◌, subst, Bool, true, false,
  not, ◌&&◌, ◌||◌, Option, none, some, List, [], ◌∷◌, arith,
}
use leftovers.Base.Int.{pos, ◌+ℤ◌, leb_ℤ, eqb_ℤ}
use leftovers.Base.Result.{ok, ◌>>=◌, ◌>>◌, >>=-eq-ok, ok-injective}
use leftovers.Base.Text.{str_eq, one_of}
use leftovers.Models.{Instant, TokenUsage}
use leftovers.Models.Payload.{Json, get, is_true}
use leftovers.Runner.Payload.{text_of}
use leftovers.Runner.Monitor.{Telemetry, Setting, telemetry_max_events}
use leftovers.Runner.Monitor.Events.{
  validate_sequence, checkin, heartbeat, accept, parse_line, check_version, emit, consume,
}

checkin-ok :
    (setting : Setting) (event : Json) (t u : Telemetry)
    → checkin setting event t ≡ ok u
    → (is_some t.checkin_at ≡ false)
      × (u.sequence ≡ t.sequence)
      × (u.events ≡ t.events)
      × (is_some u.checkin_at ≡ true)
      × (is_some u.last_adapter_heartbeat_at ≡ true)
      × (u.usage ≡ t.usage)
      × (u.emitted ≡ t.emitted)
unfolding checkin
checkin-ok setting event t u h = (
  ground arith,
  ground arith,
  ground arith,
  ground arith,
  ground arith,
  ground arith,
  ground arith,
)

heartbeat-ok :
    (setting : Setting) (event : Json) (t u : Telemetry)
    → heartbeat setting event t ≡ ok u
    → (is_some t.checkin_at ≡ true)
      × (u.sequence ≡ t.sequence)
      × (u.events ≡ t.events)
      × (u.checkin_at ≡ t.checkin_at)
      × (is_some u.last_adapter_heartbeat_at ≡ true)
      × (u.usage ≡ t.usage)
      × (u.emitted ≡ t.emitted)
unfolding heartbeat
heartbeat-ok setting event t u h = (
  ground arith,
  ground arith,
  ground arith,
  ground arith,
  ground arith,
  ground arith,
  ground arith,
)

-- The receipt's numbers add up, its source is known, a source that attests is exact and one that
-- estimates is not.
unfoldable pub is_consistent : Bool → TokenUsage → Bool
is_consistent allow_synthetic u =
    eqb_ℤ u.total_tokens (u.input_tokens +ℤ u.output_tokens)
    && leb_ℤ u.cached_input_tokens u.input_tokens
    && leb_ℤ u.reasoning_tokens u.output_tokens
    && one_of u.source telemetry_sources
    && (not (str_eq u.source "synthetic") || allow_synthetic)
    && not (str_eq u.source "estimated" && u.exact)
    && (not (one_of u.source ("provider_response" ∷ "broker_attested" ∷ [])) || u.exact)

abbrev pub fits : Bool → Option TokenUsage → Bool
fits allow_synthetic none = true
fits allow_synthetic (some u) = is_consistent allow_synthetic u

abbrev reported : Option TokenUsage → Instant
reported none = 0
reported (some u) = u.reported_at

amounts-ok :
    (event : Json)
    → check_amounts event ≡ ok tt
    → (eqb_ℤ
          (amount (get "total_tokens" event))
          (amount (get "input_tokens" event) +ℤ amount (get "output_tokens" event))
        ≡ true)
      × (leb_ℤ (amount (get "cached_input_tokens" event)) (amount (get "input_tokens" event))
          ≡ true)
      × (leb_ℤ (amount (get "reasoning_tokens" event)) (amount (get "output_tokens" event)) ≡ true)
unfolding check_amounts
amounts-ok event h = (ground arith, ground arith, ground arith)

source-ok :
    (setting : Setting) (event : Json)
    → check_source setting event ≡ ok tt
    → (one_of (text_of (get "source" event)) telemetry_sources ≡ true)
      × ((not (str_eq (text_of (get "source" event)) "synthetic") || setting.allow_synthetic_usage)
          ≡ true)
      × (not (str_eq (text_of (get "source" event)) "estimated" && is_true (get "exact" event))
          ≡ true)
      × ((not (one_of (text_of (get "source" event)) ("provider_response" ∷ "broker_attested" ∷ []))
            || is_true (get "exact" event))
          ≡ true)
unfolding check_source
source-ok setting event h = (ground arith, ground arith, ground arith, ground arith)

receipt-is_consistent :
    (setting : Setting) (event : Json) (observed : Instant)
    → check_amounts event ≡ ok tt
    → check_source setting event ≡ ok tt
    → is_consistent setting.allow_synthetic_usage (receipt event observed) ≡ true
unfolding is_consistent
receipt-is_consistent setting event observed h k =
    let amounts = amounts-ok event h in
    let source = source-ok setting event k in
    rw (amounts.0, amounts.1, amounts.2, source.0, source.1, source.2, source.3) refl

usage_receipt-checked :
    (setting : Setting) (event : Json) (t u : Telemetry)
    → usage_receipt setting event t ≡ ok u
    → (check_amounts event ≡ ok tt)
      × (check_source setting event ≡ ok tt)
      × (parse_observed_at setting (get "observed_at" event) ≡ ok (reported u.usage))
      × (u.usage ≡ some (receipt event (reported u.usage)))
unfolding usage_receipt
usage_receipt-checked setting event t u h = (ground arith, ground arith, ground arith, ground arith)

usage_receipt-ok :
    (setting : Setting) (event : Json) (t u : Telemetry)
    → usage_receipt setting event t ≡ ok u
    → (is_some t.checkin_at ≡ true)
      × (is_some t.usage ≡ false)
      × (u.sequence ≡ t.sequence)
      × (u.events ≡ t.events)
      × (u.checkin_at ≡ t.checkin_at)
      × (u.last_adapter_heartbeat_at ≡ t.last_adapter_heartbeat_at)
      × (fits setting.allow_synthetic_usage u.usage ≡ true)
      × (u.emitted ≡ t.emitted)
unfolding usage_receipt
usage_receipt-ok setting event t u h =
    let checked = usage_receipt-checked setting event t u h in
    let consistent = receipt-is_consistent setting event (reported u.usage) checked.0 checked.1 in
    (
      ground arith,
      ground arith,
      ground arith,
      ground arith,
      ground arith,
      ground arith,
      rw checked.3 consistent,
      ground arith,
    )

sequence-ok :
    (event : Json) (t u : Telemetry)
    → validate_sequence event t ≡ ok u
    → (u.sequence ≡ t.sequence +ℤ pos 1)
      × (u.events ≡ suc t.events)
      × (u.events ≤ telemetry_max_events)
      × (u.checkin_at ≡ t.checkin_at)
      × (u.last_adapter_heartbeat_at ≡ t.last_adapter_heartbeat_at)
      × (u.usage ≡ t.usage)
      × (u.emitted ≡ t.emitted)
unfolding validate_sequence
sequence-ok event t u h = (
  ground arith,
  ground arith,
  ground arith,
  ground arith,
  ground arith,
  ground arith,
  ground arith,
)

accept-ok :
    (setting : Setting) (event : Json) (t u : Telemetry)
    → accept setting event t ≡ ok u
    → is_some t.last_adapter_heartbeat_at ≡ is_some t.checkin_at
    → fits setting.allow_synthetic_usage t.usage ≡ true
    → (u.sequence ≡ t.sequence)
      × (u.events ≡ t.events)
      × (u.emitted ≡ t.emitted)
      × (is_some u.checkin_at ≡ true)
      × (is_some u.last_adapter_heartbeat_at ≡ true)
      × (fits setting.allow_synthetic_usage u.usage ≡ true)
unfolding accept
accept-ok setting event t u h alive consistent =
    let first = checkin-ok setting event t u in
    let later = heartbeat-ok setting event t u in
    let receipt = usage_receipt-ok setting event t u in
    (ground arith, ground arith, ground arith, ground arith, ground arith, ground arith)

-- The state between two lines.
pub record IsSound (allow_synthetic : Bool) (t : Telemetry) : Type 0 where
  pub sequence_eq : t.sequence ≡ pos t.events
  pub events_le : t.events ≤ telemetry_max_events
  pub emitted_eq : length t.emitted ≡ t.events
  pub checked_in : is_some t.checkin_at ≡ ltb 0 t.events
  pub alive : is_some t.last_adapter_heartbeat_at ≡ is_some t.checkin_at
  pub consistent : fits allow_synthetic t.usage ≡ true
  pub reported_after : is_some t.usage ≡ true → is_some t.checkin_at ≡ true

next_pos : (n : ℕ) → pos n +ℤ pos 1 ≡ pos (suc n)
unfolding ◌+ℤ◌
next_pos n = ground arith

emit-IsSound :
    (setting : Setting) (event : Json) (t counted v : Telemetry)
    → IsSound setting.allow_synthetic_usage t
    → validate_sequence event t ≡ ok counted
    → accept setting event counted ≡ ok v
    → IsSound setting.allow_synthetic_usage (emit event v)
emit-IsSound setting event t counted v sound numbered taken =
    let n = sequence-ok event t counted numbered in
    let a =
      accept-ok setting event counted v taken (rw (n.4, n.3) sound.alive)
        (rw (n.5) sound.consistent) in
    let grown : v.events ≡ suc t.events = a.1 ∙ n.1 in
    record {
      sequence_eq =
          a.0
          ∙ n.0
          ∙ ap (λ x. x +ℤ pos 1) sound.sequence_eq
          ∙ next_pos t.events
          ∙ ap pos (sym grown);
      events_le = subst (λ k. k ≤ telemetry_max_events) (sym a.1) n.2;
      emitted_eq =
          length-append v.emitted (event ∷ [])
          ∙ ap (λ k. k + 1) (ap length (a.2 ∙ n.6) ∙ sound.emitted_eq)
          ∙ omega (arith, grown);
      checked_in = a.3 ∙ ground arith;
      alive = a.4 ∙ sym a.3;
      consistent = a.5;
      reported_after = λ k. a.3;
    }

-- A line that `_consume` accepts keeps the state sound: the events are counted without a gap, 1024 at
-- most, and each is passed on; the check-in comes first; a receipt comes after it and adds up.
pub consume-IsSound :
    (setting : Setting) (line : List ℕ) (t u : Telemetry)
    → consume setting line t ≡ ok u
    → IsSound setting.allow_synthetic_usage t
    → IsSound setting.allow_synthetic_usage u
unfolding consume
consume-IsSound setting line t u h sound =
    let parsed =
      >>=-eq-ok (parse_line setting.python line)
        (λ event. validate_sequence event t >>= λ counted.
          check_version setting.python event
          >> (accept setting event counted >>= λ v. ok (emit event v)))
        h in
    let event = parsed.0 in
    let numbered =
      >>=-eq-ok (validate_sequence event t)
        (λ counted.
          check_version setting.python event
          >> (accept setting event counted >>= λ v. ok (emit event v)))
        parsed.2 in
    let counted = numbered.0 in
    let known = require-ok _ _ numbered.2 in
    let accepted = >>=-eq-ok (accept setting event counted) (λ v. ok (emit event v)) known.1 in
    let same : emit event accepted.0 ≡ u = ok-injective accepted.2 in
    subst (IsSound setting.allow_synthetic_usage) same
      (emit-IsSound setting event t counted accepted.0 sound numbered.1 accepted.1)
