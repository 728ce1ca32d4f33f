-- ===== src/Budget/Window/Laws.antt =====
-- The end of a window as `next_reset` computes it, against the windows as `budget_window_key`
-- names them. The two are computed by different formulas in the code.
use leftovers.Budget.Error.{WindowKey, daily, weekly}
use leftovers.Base.Int.{ℤ, pos, pos_part, ◌≤ℤ◌, ◌<ℤ◌, neg_part_of_nonneg}
use leftovers.Base.{
  if◌then◌else◌, Bool-cases, ℕ, ◌+◌, ◌-◌, ◌*◌, ◌%◌, ◌≤◌, ◌<◌, ◌≡◌, ap, ◌↔◌, inl, inr, arith,
}
use leftovers.Base.Text.{str_eq}
use leftovers.Config.{BudgetConfig}
use leftovers.Budget.Zone.{hour_us, day_us, date}
use leftovers.Budget.Window.{days_until, not_before, shifted, wall_window_key, wall_reset}

-- The number of whole days in a window.
abbrev pub window_days : {Float : Type 0} → BudgetConfig Float → ℕ
window_days config = if str_eq config.window "daily" then 1 else 7

-- The two formulas over plain numbers, a day being `hour_us * 24` long. `h` is the reset hour.
daily_iff :
    (h w v : ℕ)
    → h < 24
    → hour_us * h ≤ w
    → w ≤ v
    → let r = not_before (date w * day_us + hour_us * h) 1 w in
      (v < r) ↔ (date (v - hour_us * h) ≡ date (w - hour_us * h))
unfolding not_before
daily_iff h w v lt le after = (λ q. ground arith, λ q. ground arith)

weekly_iff :
    (h p w v : ℕ)
    → h < 24
    → p < 7
    → hour_us * h + 7 * day_us ≤ w
    → w ≤ v
    → let r = not_before ((date w + (p + 6 * (date w % 7)) % 7) * day_us + hour_us * h) 7 w in
      let s = date (v - hour_us * h) in
      let t = date (w - hour_us * h) in
      (v < r) ↔ (s - (s % 7 + 6 * p) % 7 ≡ t - (t % 7 + 6 * p) % 7)
unfolding not_before
weekly_iff h p w v lt ltp le after = (λ q. ground arith, λ q. ground arith)

daily_key : {a b : ℕ} → WindowKey.daily a ≡ WindowKey.daily b → a ≡ b
daily_key h = cc

weekly_key : {a b : ℕ} → WindowKey.weekly a ≡ WindowKey.weekly b → a ≡ b
weekly_key h = cc

shifted-nonneg :
    {Float : Type 0} (config : BudgetConfig Float) (w : ℕ)
    → pos 0 ≤ℤ config.reset_hour
    → shifted config w ≡ w - hour_us * pos_part config.reset_hour
unfolding shifted
shifted-nonneg config w h = rw (neg_part_of_nonneg config.reset_hour h) (omega arith)

until-nonneg :
    (reset : ℤ) (day : ℕ) → pos 0 ≤ℤ reset → days_until reset day ≡ (pos_part reset + 6 * day) % 7
until-nonneg reset day h = rw (neg_part_of_nonneg reset h) (omega arith)

module _ {Float : Type 0} (config : BudgetConfig Float) where
  -- For a reset hour and weekday as `load_config` accepts them and a wall clock at least a window
  -- past the first moment of the calendar: a later wall clock lies before the reset that
  -- `next_reset` computes exactly if `budget_window_key` gives it the same window.
  pub window_iff_before_reset :
      (w v : ℕ)
      → pos 0 ≤ℤ config.reset_hour
      → config.reset_hour <ℤ pos 24
      → pos 0 ≤ℤ config.reset_weekday
      → config.reset_weekday <ℤ pos 7
      → hour_us * 24 + 7 * day_us ≤ w
      → w ≤ v
      → (v < wall_reset config w) ↔ (wall_window_key config v ≡ wall_window_key config w)
  unfolding wall_reset wall_window_key
  window_iff_before_reset w v h0 h24 d0 d7 past after =
      let h = pos_part config.reset_hour in
      let p = pos_part config.reset_weekday in
      let eh = neg_part_of_nonneg config.reset_hour h0 in
      let ep = neg_part_of_nonneg config.reset_weekday d0 in
      elim (Bool-cases (str_eq config.window "daily")) [
        | inl e ↦
            let f = daily_iff h w v (omega arith) (omega arith) after in
            simp (e, shifted-nonneg config w h0, shifted-nonneg config v h0)
              (λ q. ap daily (f.0 q), λ q. f.1 (daily_key q))
        | inr e ↦
            let f = weekly_iff h p w v (omega arith) (omega arith) (omega arith) after in
            simp (e, shifted-nonneg config w h0, shifted-nonneg config v h0)
              (rw (until-nonneg config.reset_weekday (date w % 7) d0) (
                λ q. ap weekly (omega (arith, ep, f.0 q)),
                λ q. f.1 (omega (arith, ep, weekly_key q)),
              ))
      ]

  -- For a reset hour that `load_config` accepts, the reset that `next_reset` computes lies after the
  -- wall clock, by no more than one window.
  pub wall_reset_bounds :
      (w : ℕ)
      → pos 0 ≤ℤ config.reset_hour
      → config.reset_hour <ℤ pos 24
      → (w < wall_reset config w) × (wall_reset config w ≤ w + window_days config * day_us)
  unfolding wall_reset
  wall_reset_bounds w h0 h24 =
      let eh = neg_part_of_nonneg config.reset_hour h0 in
      elim (Bool-cases (str_eq config.window "daily")) [
        | inl e ↦ rw e (ground arith, ground arith)
        | inr e ↦ rw e (ground arith, ground arith)
      ]
