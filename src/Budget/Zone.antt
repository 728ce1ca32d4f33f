-- ===== src/Budget/Zone.antt =====
-- `zoneinfo.ZoneInfo`, which the repository does not hold: a zone takes an instant to the wall
-- clock and a wall clock reading back to an instant. Wall clocks count the microseconds since
-- 0001-01-01T00:00, the first moment that a Python datetime can show.
use leftovers.Base.{ℕ, ◌/◌, ◌%◌}
use leftovers.Models.{Instant}

pub record Zone : Type 0 where
  pub to_wall : Instant → ℕ
  pub to_instant : ℕ → Instant

abbrev pub hour_us : ℕ
hour_us = 3600000000

abbrev pub day_us : ℕ
day_us = 86400000000

-- `value.date()`, as the number of days before it.
abbrev pub date : ℕ → ℕ
date wall = wall / day_us

-- `date.weekday()`: 0001-01-01 was a Monday.
abbrev pub weekday : ℕ → ℕ
weekday day = day % 7
