-- ===== src/Budget/Gate/Laws.antt =====
-- What a run that may start is sure of: the quota that it leaves alone, and the time it has.
use leftovers.Base.{
  if◌then◌else◌, ℕ, ◌≡◌, refl, ◌≢◌, ◌↔◌, Bool, true, false, Option, none, some, arith,
}
use leftovers.Base.Int.{ℤ, pos, negsuc, ◌≤ℤ◌, ltb_ℤ, ltb_ℤ-false, ltb_ℤ_of_le, max_ℤ-le}
use leftovers.Models.{Instant, BudgetSnapshot}
use leftovers.Config.{BudgetConfig}
use leftovers.Config.Floats.{Floats}
use leftovers.Budget.Gate.{
  Reason, elapsed, seconds, scaled, required_tokens, required_horizon, can_start,
  start_before_reset, start_with,
}

abbrev two_53 : ℕ
two_53 = 9007199254740992

-- The least integer that a scaled count is compared with.
pub below_scaled :
    (floats : Floats) (x : floats.Float) (e : ℤ)
    → floats.is_finite x ≡ true
    → floats.le (floats.of_int (pos 1)) x ≡ true
    → pos 1 ≤ℤ e
    → e ≤ℤ pos two_53
    → e ≤ℤ floats.ceil_mul e x
below_scaled floats x (pos n) f l h k = floats.ceil_mul-le n x (omega arith) f l
below_scaled floats x (negsuc n) f l h k = absurd (omega arith)

abbrev answer : Bool × Reason → Bool
answer r = r.0

two_tests :
    (short near : Bool) (x y z : Reason)
    → (answer (if short then (false, x) else if near then (false, y) else (true, z)) ≡ true)
      ↔ ((short ≡ false) × (near ≡ false))
two_tests short near x y z = (λ h. ground arith, λ h. ground arith)

none_short :
    (short : Bool) (x y : Reason) → answer (if short then (false, x) else (false, y)) ≢ true
none_short short x y h = ground arith

module _ (floats : Floats) (config : BudgetConfig floats.Float) (s : BudgetSnapshot) (e : ℤ) where
  -- The quota is known and covers both needs; the reset is known and far enough away.
  abbrev pub Covered : Option ℤ → Option Instant → Type 0
  Covered (some n) (some t) =
      (config.minimum_spendable_tokens ≤ℤ n)
      × (scaled floats config e ≤ℤ n)
      × (seconds (required_horizon floats config) ≤ℤ elapsed t s.observed_at)
  Covered _ _ = ⊥

  start_with_iff :
      (spendable : Option ℤ) (resets_at : Option Instant)
      → s.resets_at ≡ resets_at
      → ((start_with floats config (required_tokens floats config e) s spendable).0 ≡ true)
        ↔ Covered spendable resets_at
  unfolding can_start
  start_with_iff none r h = (λ q. cc, λ q. absurd q)
  start_with_iff (some n) none h =
      rw (h, start_before_reset)
        (λ q. absurd (none_short (ltb_ℤ n (required_tokens floats config e)) _ _ q), λ q. absurd q)
  start_with_iff (some n) (some t) h =
      let least = config.minimum_spendable_tokens in
      let left = elapsed t s.observed_at in
      let horizon = seconds (required_horizon floats config) in
      let most = max_ℤ-le least (scaled floats config e) n in
      let tests =
        two_tests (ltb_ℤ n (required_tokens floats config e)) (ltb_ℤ left horizon) _ _ _ in
      rw (h, start_before_reset)
        (
          λ q.
              let (enough, later) = tests.0 q in
              ((most.0 enough).0, (most.0 enough).1, ltb_ℤ-false left horizon later),
          λ q. tests.1 (most.1 (q.0, q.1), ltb_ℤ_of_le left horizon q.2),
        )

  -- A run may start exactly if the spendable quota is known and covers both the configured
  -- minimum and the scaled estimate, and the reset is known and no nearer than the longest run
  -- and the safety margin together.
  pub can_start_iff :
      ((can_start floats config s e).0 ≡ true) ↔ Covered s.spendable_tokens s.resets_at
  unfolding can_start
  can_start_iff = start_with_iff s.spendable_tokens s.resets_at refl
