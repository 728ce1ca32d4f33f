-- ===== src/Budget/Numeral.antt =====
-- `int(text)` of Python on the digits of ASCII, and `text.strip() == ""`. White space around the
-- number, one sign, and single underscores between digits are accepted.
use leftovers.Base.{
  leb, ◌==◌, if◌then◌else◌, all, ℕ, ◌+◌, ◌-◌, ◌*◌, ◌≡◌, refl, Bool, true, false, ◌&&◌, Option, none,
  some, List, [], ◌∷◌,
}
use leftovers.Base.Int.{ℤ, pos, negsuc, sub_ℕ}
use leftovers.Base.Text.{codes}
use leftovers.Config.Ref.{is_space}

abbrev pub is_digit : ℕ → Bool
is_digit c = leb b'0' c && leb c b'9'

-- The text without the white space in front of it.
strip_front : List ℕ → List ℕ
strip_front [] = []
strip_front (c ∷ s) = if is_space c then strip_front s else c ∷ s

-- `text.strip() == ""`.
unfoldable pub is_blank_text : List ℕ → Bool
is_blank_text = all is_space

-- After a digit: more digits, one underscore before a digit, or white space to the end.
digits : ℕ → List ℕ → Option ℕ
digits n [] = some n
digits n (c ∷ []) =
    if is_digit c then some (n * 10 + (c - b'0')) else (if is_space c then some n else none)
digits n (c ∷ d ∷ s) = elim (is_digit c) [
  | true ↦ digits (n * 10 + (c - b'0')) (d ∷ s)
  | false ↦ elim (c == b'_' && is_digit d) [
    | true ↦ digits (n * 10 + (d - b'0')) s
    | false ↦ if all is_space (c ∷ d ∷ s) then some n else none
  ]
]

unsigned : List ℕ → Option ℕ
unsigned [] = none
unsigned (c ∷ s) = if is_digit c then digits (c - b'0') s else none

negated : Option ℕ → Option ℤ
negated none = none
negated (some n) = some (sub_ℕ 0 n)

positive : Option ℕ → Option ℤ
positive none = none
positive (some n) = some (pos n)

signed : List ℕ → Option ℤ
signed [] = none
signed (c ∷ s) =
    if c == b'-'
    then negated (unsigned s)
    else if c == b'+'
    then positive (unsigned s)
    else positive (unsigned (c ∷ s))

-- `none` stands for the `ValueError`.
unfoldable pub int_of : List ℕ → Option ℤ
unfolding strip_front digits unsigned negated positive signed is_space
int_of s = signed (strip_front s)

int_of-padded : int_of (codes " -1_200 ") ≡ some (negsuc 1199)
unfolding int_of
int_of-padded = refl

int_of-malformed : int_of (codes "12 3") ≡ none
unfolding int_of
int_of-malformed = refl
