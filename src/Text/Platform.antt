-- ===== src/Text/Platform.antt =====
-- Tables of Python's library that the repository does not hold: Unicode's case folding, which
-- characters belong to words or are decimal digits (`\d`), and which texts `date.fromisoformat` reads as which day,
-- the last component of `Path(text)`, and the keys that `ZoneInfo` knows. At another key it raises
-- `ZoneInfoNotFoundError`; at some malformed ones it raises a ValueError or an OSError, which this
-- table does not tell apart from that.
use leftovers.Base.{ℕ, String, Bool, Option}

pub record Platform : Type 0 where
  pub casefold : String → String
  pub is_word : ℕ → Bool
  pub is_decimal : ℕ → Bool
  pub date_from_iso : String → Option ℕ
  pub path_name : String → String
  pub has_zone : String → Bool
