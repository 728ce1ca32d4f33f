-- ===== src/Publisher/Title/Laws.antt =====
-- What `_safe_title` (src/leftovers/publisher.py) makes of a text that an agent or a stranger wrote.
use leftovers.Base.{
  ◌==◌, length, any, is_empty, ℕ, zero, suc, ◌≤◌, ◌≡◌, refl, subst, Bool, true, false, not, ◌&&◌,
  List, [], ◌∷◌, arith,
}
use leftovers.Base.Result.{ok, ok-injective, raise_if-ok}
use leftovers.Config.Ref.{is_space, is_control}
use leftovers.Publisher.Title.{
  squeeze, lstrip, rstrip, starts_name, part_mentions, take, safe_title,
}

-- No code below 32, and no 127: the range `[\x00-\x1f\x7f]` that the source replaces.
abbrev pub has_no_ascii_control : List ℕ → Bool
has_no_ascii_control s = not (any is_control s)

-- No `@` stands directly before a character that `starts_name` accepts.
unfoldable pub mentions_nobody : List ℕ → Bool
mentions_nobody [] = true
mentions_nobody (c ∷ s) = not (c == b'@' && starts_name s) && mentions_nobody s

squeeze_control :
    (inside : Bool) (s : List ℕ) → has_no_ascii_control (squeeze is_control inside s) ≡ true
unfolding squeeze is_control
squeeze_control inside [] = refl
squeeze_control inside (c ∷ s) =
    let run = squeeze_control true s in let rest = squeeze_control false s in ground arith

squeeze-has_no_ascii_control :
    (p : ℕ → Bool) (inside : Bool) (s : List ℕ)
    → has_no_ascii_control s ≡ true
    → has_no_ascii_control (squeeze p inside s) ≡ true
unfolding squeeze is_control
squeeze-has_no_ascii_control p inside [] h = refl
squeeze-has_no_ascii_control p inside (c ∷ s) h =
    let run = squeeze-has_no_ascii_control p true s (ground arith) in
    let rest = squeeze-has_no_ascii_control p false s (ground arith) in ground arith

lstrip-has_no_ascii_control :
    (s : List ℕ) → has_no_ascii_control s ≡ true → has_no_ascii_control (lstrip s) ≡ true
unfolding lstrip
lstrip-has_no_ascii_control [] h = refl
lstrip-has_no_ascii_control (c ∷ s) h =
    let rest = lstrip-has_no_ascii_control s (ground arith) in ground arith

rstrip-has_no_ascii_control :
    (s : List ℕ) → has_no_ascii_control s ≡ true → has_no_ascii_control (rstrip s) ≡ true
unfolding rstrip
rstrip-has_no_ascii_control [] h = refl
rstrip-has_no_ascii_control (c ∷ s) h =
    let rest = rstrip-has_no_ascii_control s (ground arith) in ground arith

part_mentions-has_no_ascii_control :
    (s : List ℕ) → has_no_ascii_control s ≡ true → has_no_ascii_control (part_mentions s) ≡ true
unfolding part_mentions is_control
part_mentions-has_no_ascii_control [] h = refl
part_mentions-has_no_ascii_control (c ∷ s) h =
    let rest = part_mentions-has_no_ascii_control s (ground arith) in ground arith

take-has_no_ascii_control :
    (n : ℕ) (s : List ℕ) → has_no_ascii_control s ≡ true → has_no_ascii_control (take n s) ≡ true
unfolding take
take-has_no_ascii_control zero s h = refl
take-has_no_ascii_control (suc n) [] h = refl
take-has_no_ascii_control (suc n) (c ∷ s) h =
    let rest = take-has_no_ascii_control n s (ground arith) in ground arith

starts_name-part_mentions : (s : List ℕ) → starts_name (part_mentions s) ≡ starts_name s
unfolding part_mentions
starts_name-part_mentions [] = refl
starts_name-part_mentions (c ∷ s) = ground arith

mentions_nobody-part_mentions : (s : List ℕ) → mentions_nobody (part_mentions s) ≡ true
unfolding part_mentions mentions_nobody
mentions_nobody-part_mentions [] = refl
mentions_nobody-part_mentions (c ∷ s) =
    let rest = mentions_nobody-part_mentions s in
    let same = starts_name-part_mentions s in ground arith

starts_name-take : (n : ℕ) (s : List ℕ) → starts_name (take n s) ≡ true → starts_name s ≡ true
unfolding take
starts_name-take zero s h = cc
starts_name-take (suc n) [] h = cc
starts_name-take (suc n) (c ∷ s) h = h

mentions_nobody-take :
    (n : ℕ) (s : List ℕ) → mentions_nobody s ≡ true → mentions_nobody (take n s) ≡ true
unfolding take mentions_nobody
mentions_nobody-take zero s h = refl
mentions_nobody-take (suc n) [] h = refl
mentions_nobody-take (suc n) (c ∷ s) h =
    let rest = mentions_nobody-take n s (ground arith) in
    let begins = starts_name-take n s in ground arith

length-take : (n : ℕ) (s : List ℕ) → length (take n s) ≤ n
unfolding take
length-take zero s = omega arith
length-take (suc n) [] = omega arith
length-take (suc n) (c ∷ s) = omega (arith, length-take n s)

cleaned_has_no_ascii_control :
    (value : List ℕ)
    → has_no_ascii_control
        (part_mentions (squeeze is_space false (rstrip (lstrip (squeeze is_control false value)))))
      ≡ true
cleaned_has_no_ascii_control value = part_mentions-has_no_ascii_control _ (
    squeeze-has_no_ascii_control is_space false _
      (rstrip-has_no_ascii_control _ (lstrip-has_no_ascii_control _ (squeeze_control false value))))

is_empty-take : (n : ℕ) (s : List ℕ) → 1 ≤ n → is_empty s ≡ false → is_empty (take n s) ≡ false
unfolding take
is_empty-take zero s h k = ground arith
is_empty-take (suc n) [] h k = cc
is_empty-take (suc n) (c ∷ s) h k = refl

-- A title that is accepted, of a commit or a pull request, is not empty if it may have a character
-- at all, is no longer than it may be, holds no ASCII control character (no code below 32 and no
-- 127, so no line feed and no carriage return), and has no `@` directly before an ASCII letter or
-- digit, whatever text it is made of. Other control characters, as U+009B, are not excluded.
pub safe_title-harmless :
    (maximum : ℕ) (value title : List ℕ)
    → 1 ≤ maximum
    → safe_title maximum value ≡ ok title
    → (is_empty title ≡ false)
      × (length title ≤ maximum)
      × (has_no_ascii_control title ≡ true)
      × (mentions_nobody title ≡ true)
unfolding safe_title
safe_title-harmless maximum value title some_room h =
    let spaced = squeeze is_space false (rstrip (lstrip (squeeze is_control false value))) in
    let found = raise_if-ok (is_empty (part_mentions spaced)) _ h in
    let same : take maximum (part_mentions spaced) ≡ title = ok-injective found.1 in
    subst
      (λ t.
        (is_empty t ≡ false)
        × (length t ≤ maximum)
        × (has_no_ascii_control t ≡ true)
        × (mentions_nobody t ≡ true))
      same
      (
        is_empty-take maximum (part_mentions spaced) some_room found.0,
        length-take maximum (part_mentions spaced),
        take-has_no_ascii_control maximum (part_mentions spaced)
            (cleaned_has_no_ascii_control value),
        mentions_nobody-take maximum (part_mentions spaced) (mentions_nobody-part_mentions spaced),
      )
