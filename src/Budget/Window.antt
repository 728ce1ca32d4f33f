-- ===== src/Budget/Window.antt =====
-- `budget_window_key` and `BudgetGate.next_reset` of src/leftovers/budget.py.
pub mod Laws
use leftovers.Base.{leb, if◌then◌else◌, ℕ, ◌+◌, ◌-◌, ◌*◌, ◌%◌, String, ◌&&◌}
use leftovers.Base.Int.{ℤ, pos, pos_part, neg_part, ltb_ℤ, leb_ℤ}
use leftovers.Base.Text.{str_eq}
use leftovers.Base.Result.{Result, ok, err}
use leftovers.Models.{Instant}
use leftovers.Config.{BudgetConfig}
use leftovers.Budget.Error.{WindowKey, daily, weekly, Raised, value_error}
use leftovers.Budget.Zone.{Zone, hour_us, day_us, date, weekday}

-- `(weekday - other) % 7` of Python, for a signed `other`: the remainder is never negative.
abbrev pub weekday_gap : ℕ → ℤ → ℕ
weekday_gap day other = (day + neg_part other + 6 * pos_part other) % 7

-- `(reset - weekday) % 7`.
abbrev pub days_until : ℤ → ℕ → ℕ
days_until reset day = (pos_part reset + 6 * neg_part reset + 6 * day) % 7

-- `candidate`, or the same hour so many days later where it has passed.
unfoldable pub not_before : ℕ → ℕ → ℕ → ℕ
not_before candidate days local =
    if leb candidate local then candidate + days * day_us else candidate

module _ {Float : Type 0} (config : BudgetConfig Float) where
  -- `observed - timedelta(hours=config.reset_hour)`, on the wall clock.
  pub shifted : ℕ → ℕ
  shifted wall = wall + hour_us * neg_part config.reset_hour - hour_us * pos_part config.reset_hour

  unfoldable pub wall_window_key : ℕ → WindowKey
  unfolding shifted
  wall_window_key wall =
      let day = date (shifted wall) in
      if str_eq config.window "daily"
      then daily day
      else weekly (day - weekday_gap (weekday day) config.reset_weekday)

  unfoldable pub budget_window_key : (String → Zone) → Instant → WindowKey
  unfolding wall_window_key
  budget_window_key zones now =
      let zone : Zone = zones config.timezone in wall_window_key (zone.to_wall now)

  -- The wall clock at which the window of `local` ends, for an hour that a clock shows.
  unfoldable pub wall_reset : ℕ → ℕ
  unfolding not_before
  wall_reset local =
      let day = date local in
      let hour = hour_us * pos_part config.reset_hour in
      if str_eq config.window "daily"
      then not_before (day * day_us + hour) 1 local
      else not_before ((day + days_until config.reset_weekday (weekday day)) * day_us + hour) 7
          local

  -- `datetime.time(hour=...)` raises for an hour that no clock shows.
  unfoldable pub next_reset : (String → Zone) → Instant → Result Raised Instant
  unfolding wall_reset
  next_reset zones observed_at =
      let zone : Zone = zones config.timezone in
      if leb_ℤ (pos 0) config.reset_hour && ltb_ℤ config.reset_hour (pos 24)
      then ok (zone.to_instant (wall_reset (zone.to_wall observed_at)))
      else err value_error
