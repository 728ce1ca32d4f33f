-- ===== src/Runner/Monitor/Poll/Laws.antt =====
-- What a poll that raises nothing leaves (`poll` of src/leftovers/runner.py).
use leftovers.Runner.Monitor.Fields.{is_some}
use leftovers.Base.{
  Bool-cases, Option-cases, length, is_empty, ℕ, ◌+◌, ◌-◌, ◌≡◌, ap, ◌∙◌, subst, inl, inr, Bool,
  true, not, ◌&&◌, Option, none, some, List, [], ◌∷◌, ◌++◌, arith,
}
use leftovers.Base.Result.{ok, ◌>>=◌, ◌>>◌, >>=-eq-ok, ok-injective}
use leftovers.Runner.Monitor.{Telemetry, Monitor, Setting, telemetry_max_bytes}
use leftovers.Runner.Monitor.Events.{consume}
use leftovers.Runner.Monitor.Laws.{IsSound, consume-IsSound}
use leftovers.Runner.Monitor.Poll.{
  Seen, cut, consume_all, feed, read_new, flush, check_clocks, poll,
}

module _ (setting : Setting) where
  consume_all-IsSound :
      (lines : List (List ℕ)) (t u : Telemetry)
      → consume_all setting lines t ≡ ok u
      → IsSound setting.allow_synthetic_usage t
      → IsSound setting.allow_synthetic_usage u
  unfolding consume_all
  consume_all-IsSound [] t u h sound =
      subst (IsSound setting.allow_synthetic_usage) (ok-injective h) sound
  consume_all-IsSound (line ∷ lines) t u h sound =
      let next = >>=-eq-ok (consume setting line t) (consume_all setting lines) h in
      consume_all-IsSound lines next.0 u next.2 (consume-IsSound setting line t next.0 next.1 sound)

  feed-IsSound :
      (chunk : List ℕ) (m n : Monitor)
      → feed setting chunk m ≡ ok n
      → IsSound setting.allow_synthetic_usage m.telemetry
      → IsSound setting.allow_synthetic_usage n.telemetry
  unfolding feed
  feed-IsSound chunk m n h sound =
      let taken =
        >>=-eq-ok (consume_all setting (cut [] (m.buffer ++ chunk)).0 m.telemetry)
          (λ t. ok record {
            offset = m.offset + length chunk;
            buffer = (cut [] (m.buffer ++ chunk)).1;
            file_identity = m.file_identity;
            telemetry = t;
          })
          h in
      subst (λ k. IsSound setting.allow_synthetic_usage k.telemetry) (ok-injective taken.2)
        (consume_all-IsSound (cut [] (m.buffer ++ chunk)).0 m.telemetry taken.0 taken.1 sound)

  -- The part of the file that a poll reads, where it reads one.
  read_new-fed :
      (info : Seen) (m n : Monitor)
      → read_new setting (some info) m ≡ ok n
      → (chunk : List ℕ) × (info.read m.offset (telemetry_max_bytes - m.offset + 1) ≡ some chunk)
        × (feed setting chunk (record m { file_identity = some info.identity }) ≡ ok n)
  unfolding read_new
  read_new-fed info m n h =
      elim (Option-cases (info.read m.offset (telemetry_max_bytes - m.offset + 1))) [
        | inl e ↦ ([], ground arith, ground arith)
        | inr (chunk, e) ↦ (chunk, e, ground arith)
      ]

  flush-IsSound :
      (final : Bool) (m n : Monitor)
      → flush setting final m ≡ ok n
      → IsSound setting.allow_synthetic_usage m.telemetry
      → IsSound setting.allow_synthetic_usage n.telemetry
  unfolding flush
  flush-IsSound final m n h sound = elim (Bool-cases (final && not (is_empty m.buffer))) [
    | inl e ↦
        let taken =
          >>=-eq-ok (consume setting m.buffer m.telemetry)
            (λ t. ok (record m { buffer = []; telemetry = t })) (rw e at h) in
        subst (λ k. IsSound setting.allow_synthetic_usage k.telemetry) (ok-injective taken.2)
          (consume-IsSound setting m.buffer m.telemetry taken.0 taken.1 sound)
    | inr e ↦
        subst (λ k. IsSound setting.allow_synthetic_usage k.telemetry) (ok-injective (rw e at h))
          sound
  ]

  read_new-IsSound :
      (seen : Option Seen) (m n : Monitor)
      → read_new setting seen m ≡ ok n
      → IsSound setting.allow_synthetic_usage m.telemetry
      → IsSound setting.allow_synthetic_usage n.telemetry
  unfolding read_new
  read_new-IsSound none m n h sound =
      subst (λ k. IsSound setting.allow_synthetic_usage k.telemetry) (ok-injective h) sound
  read_new-IsSound (some info) m n h sound =
      let fed = read_new-fed info m n h in
      feed-IsSound fed.0 (record m { file_identity = some info.identity }) n fed.2 sound

  -- The buffer is empty after the last poll.
  flush-empty : (m n : Monitor) → flush setting true m ≡ ok n → is_empty n.buffer ≡ true
  unfolding flush
  flush-empty m n h = ground arith

  clocks-ok :
      (t : Telemetry)
      → check_clocks setting true t ≡ ok tt
      → (setting.agent.checkin_required ≡ true → is_some t.checkin_at ≡ true)
        × (setting.agent.usage_reporting_required ≡ true → is_some t.usage ≡ true)
  unfolding check_clocks
  clocks-ok t h = (λ k. ground arith, λ k. ground arith)

  -- A poll that raises nothing went through its three parts.
  poll-parts :
      (final : Bool) (seen : Option Seen) (m n : Monitor)
      → poll setting final seen m ≡ ok n
      → (k : Monitor) × (read_new setting seen m ≡ ok k)
        × (flush setting final k ≡ ok n)
        × (check_clocks setting final n.telemetry ≡ ok tt)
  unfolding poll
  poll-parts final seen m n h =
      let new =
        >>=-eq-ok (read_new setting seen m)
          (λ k. flush setting final k >>= λ v. check_clocks setting final v.telemetry >> ok v) h in
      let complete =
        >>=-eq-ok (flush setting final new.0) (λ v. check_clocks setting final v.telemetry >> ok v)
          new.2 in
      let clocks =
        >>=-eq-ok (check_clocks setting final complete.0.telemetry) (λ _. ok complete.0)
          complete.2 in
      let same : complete.0 ≡ n = ok-injective clocks.2 in
      (
        new.0,
        new.1,
        complete.1 ∙ ap ok same,
        subst (λ v. check_clocks setting final v.telemetry ≡ ok tt) same clocks.1,
      )

  -- A poll that raises nothing keeps the state sound, whatever it read, the last one included.
  pub poll-IsSound :
      (final : Bool) (seen : Option Seen) (m n : Monitor)
      → poll setting final seen m ≡ ok n
      → IsSound setting.allow_synthetic_usage m.telemetry
      → IsSound setting.allow_synthetic_usage n.telemetry
  poll-IsSound final seen m n h sound =
      let parts = poll-parts final seen m n h in
      flush-IsSound final parts.0 n parts.2 (read_new-IsSound seen m parts.0 parts.1 sound)

  -- When the last poll raises nothing, nothing of the file is left unread in the buffer, an agent
  -- whose check-in is required has checked in, and one whose usage is required has reported it.
  pub poll-final :
      (seen : Option Seen) (m n : Monitor)
      → poll setting true seen m ≡ ok n
      → (is_empty n.buffer ≡ true)
        × (setting.agent.checkin_required ≡ true → is_some n.telemetry.checkin_at ≡ true)
        × (setting.agent.usage_reporting_required ≡ true → is_some n.telemetry.usage ≡ true)
  poll-final seen m n h =
      let parts = poll-parts true seen m n h in
      let clocks = clocks-ok n.telemetry parts.3 in
      (flush-empty parts.0 n parts.2, clocks.0, clocks.1)
