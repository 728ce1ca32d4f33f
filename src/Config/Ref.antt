-- ===== src/Config/Ref.antt =====
-- `_safe_git_ref` of src/leftovers/config.py. Texts are walked as lists of code points.
use leftovers.Base.{
  ltb, leb, ◌==◌, length, any, is_empty, ℕ, Bool, true, false, not, ◌&&◌, ◌||◌, List, [], ◌∷◌, map,
}
use leftovers.Base.Text.{codes}

-- `value.startswith(prefix)`.
abbrev pub starts : List ℕ → List ℕ → Bool
starts s [] = true
starts [] (p ∷ ps) = false
starts (c ∷ s) (p ∷ ps) = c == p && starts s ps

-- `value.endswith(suffix)`: some tail of the text is the suffix.
abbrev pub same : List ℕ → List ℕ → Bool
same [] [] = true
same [] (p ∷ ps) = false
same (c ∷ s) [] = false
same (c ∷ s) (p ∷ ps) = c == p && same s ps

abbrev pub ends : List ℕ → List ℕ → Bool
ends [] p = same [] p
ends (c ∷ s) p = same (c ∷ s) p || ends s p

-- `token in value`.
abbrev pub within : List ℕ → List ℕ → Bool
within [] p = starts [] p
within (c ∷ s) p = starts (c ∷ s) p || within s p

-- `character.isspace()` of the characters that Unicode counts as white space.
unfoldable pub is_space : ℕ → Bool
is_space c =
    (leb 9 c && leb c 13)
    || (leb 28 c && leb c 32)
    || c == 133
    || c == 160
    || c == 5760
    || (leb 8192 c && leb c 8202)
    || c == 8232
    || c == 8233
    || c == 8239
    || c == 8287
    || c == 12288

-- The letters and digits of ASCII.
abbrev pub is_ascii_alnum : ℕ → Bool
is_ascii_alnum c =
    (leb b'A' c && leb c b'Z') || (leb b'a' c && leb c b'z') || (leb b'0' c && leb c b'9')

-- `ord(character) < 32 or ord(character) == 127`.
unfoldable pub is_control : ℕ → Bool
is_control c = ltb c 32 || c == 127

abbrev pub forbidden_tokens : List (List ℕ)
forbidden_tokens = map codes ("@{" ∷ ".." ∷ "\\" ∷ "~" ∷ "^" ∷ ":" ∷ "?" ∷ "*" ∷ "[" ∷ "//" ∷ [])

unfoldable pub safe_git_ref : List ℕ → Bool
unfolding is_space is_control
safe_git_ref value =
    not (is_empty value)
    && leb (length value) 200
    && not (any (starts value) (map codes ("-" ∷ "." ∷ "/" ∷ [])))
    && not (any (ends value) (map codes ("/" ∷ "." ∷ ".lock" ∷ [])))
    && not (any (within value) forbidden_tokens)
    && not (any is_space value)
    && not (any is_control value)
