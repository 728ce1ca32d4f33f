-- ===== src/Base/Text.antt =====
-- Whole texts as native strings: equality, membership, and the code points where a test walks them.
use Prim.Native.Nat.{ℕ, suc}
use Prim.Native.Char.{code}
use Prim.Native.String.{String, ◌++◌}
use mathlib.Core.Bool.{Bool}
use mathlib.Core.List.{List, [], ◌∷◌}
use text.Mathlib.Text.{◌==◌}
pub use text.Mathlib.TextEquality.{eq_iff}
use leftovers.Base.Lists.{any}

-- `s == t` of Python.
abbrev pub str_eq : String → String → Bool
str_eq s t = s == t

-- `s in {t, ...}`.
abbrev pub one_of : String → List String → Bool
one_of s ts = any (str_eq s) ts

-- The code points of a text, in order.
abbrev pub codes : String → List ℕ
codes String.[] = []
codes (String.◌∷◌ c s) = code c ∷ codes s

-- `len(s)`: Python counts code points.
abbrev pub str_len : String → ℕ
str_len String.[] = 0
str_len (String.◌∷◌ c s) = suc (str_len s)

-- `not s`.
abbrev pub is_blank : String → Bool
is_blank s = str_eq s ""

-- `s + t`.
abbrev pub join_texts : String → String → String
join_texts s t = s ++ t
