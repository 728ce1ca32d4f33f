-- ===== src/Budget/Gate/Reserve.antt =====
-- The reserve that a run leaves alone, from the snapshot through the gate.
use leftovers.Base.{String, ◌≡◌, refl, true, false, Option, none, some, arith}
use leftovers.Base.Int.{ℤ, pos, ◌+ℤ◌, ◌-ℤ◌, ◌≤ℤ◌, max_ℤ, int_laws, ≤ℤ_trans}
use leftovers.Base.Result.{ok, >>=-eq-ok}
use leftovers.Models.{Instant, BudgetSnapshot}
use leftovers.Config.{BudgetConfig}
use leftovers.Config.Floats.{Floats}
use leftovers.Budget.Zone.{Zone}
use leftovers.Budget.Gate.{above, is_negative, snapshot, scaled, can_start, less_reserve, reading}
use leftovers.Budget.Gate.Laws.{below_scaled, Covered, can_start_iff}

-- The snapshot's fields, as the reading of the quota determines them.
abbrev pub IsReading : {Float : Type 0} → BudgetConfig Float → BudgetSnapshot → Type 0
IsReading config s =
    (is_negative s.remaining_tokens ≡ false)
    × (above s.remaining_tokens config.maximum_tokens ≡ false)
    × (s.spendable_tokens ≡ less_reserve config.reserve_tokens s.remaining_tokens)

positive_max : (d e : ℤ) → pos 1 ≤ℤ e → e ≤ℤ max_ℤ (pos 0) d → e ≤ℤ d
positive_max d e least h = ground arith

-- What lies in the part that is spendable leaves the reserve alone.
within_reserve :
    (reserve n e : ℤ) → pos 1 ≤ℤ e → e ≤ℤ max_ℤ (pos 0) (n -ℤ reserve) → reserve +ℤ e ≤ℤ n
within_reserve reserve n e least h = omega (int_laws, positive_max (n -ℤ reserve) e least h)

module _ (floats : Floats) (config : BudgetConfig floats.Float) where
  pub snapshot-IsReading :
      (zones : String → Zone) (environ : String → Option String) (override : Option ℤ)
      (now : Instant) (s : BudgetSnapshot)
      → snapshot floats config zones environ override now ≡ ok s
      → IsReading config s
  unfolding snapshot
  snapshot-IsReading zones environ override now s h =
      let (r, _, k) = >>=-eq-ok (reading floats config environ override) _ h in ground arith

  Covered-reserve :
      (s : BudgetSnapshot) (e : ℤ) (remaining : Option ℤ) (resets_at : Option Instant)
      → pos 1 ≤ℤ e
      → e ≤ℤ scaled floats config e
      → Covered floats config s e (less_reserve config.reserve_tokens remaining) resets_at
      → (n : ℤ) × (remaining ≡ some n) × (config.reserve_tokens +ℤ e ≤ℤ n)
  Covered-reserve s e none r least up h = absurd h
  Covered-reserve s e (some n) none least up h = absurd h
  Covered-reserve s e (some n) (some t) least up h =
      (n, refl, within_reserve config.reserve_tokens n e least (≤ℤ_trans e _ _ up h.1))

  -- A run that starts on a snapshot of the quota, with an estimate that a float can show and a
  -- safety multiplier as `load_config` accepts it, has a known remaining count, no more than the
  -- configured maximum, that covers the reserve and the whole estimate on top of it.
  pub start_leaves_reserve :
      (zones : String → Zone) (environ : String → Option String) (override : Option ℤ)
      (now : Instant) (s : BudgetSnapshot) (e : ℤ)
      → snapshot floats config zones environ override now ≡ ok s
      → (can_start floats config s e).0 ≡ true
      → floats.is_finite config.safety_multiplier ≡ true
      → floats.le (floats.of_int (pos 1)) config.safety_multiplier ≡ true
      → pos 1 ≤ℤ e
      → e ≤ℤ pos 9007199254740992
      → (n : ℤ) × (s.remaining_tokens ≡ some n)
        × (above (some n) config.maximum_tokens ≡ false)
        × (config.reserve_tokens +ℤ e ≤ℤ n)
  start_leaves_reserve zones environ override now s e taken start finite one least most =
      let (_, below, spendable) = snapshot-IsReading zones environ override now s taken in
      let covered = (can_start_iff floats config s e).0 start in
      let up = below_scaled floats config.safety_multiplier e finite one least most in
      let (n, known, fits) =
        Covered-reserve s e s.remaining_tokens s.resets_at least up (rw spendable at covered) in
      (n, known, rw known at below, fits)
