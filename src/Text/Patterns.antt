-- ===== src/Text/Patterns.antt =====
-- The regular expressions of src/leftovers/config.py and src/leftovers/policy.py.
use leftovers.Base.{
  ◌==◌, if◌then◌else◌, ℕ, ◌+◌, String, ◌≡◌, refl, Bool, true, false, not, ◌||◌, Option, none, some,
  List, [], ◌∷◌, ◌++◌, map,
}
use leftovers.Base.Text.{codes}
use leftovers.Text.Regex.{
  Regex, eps, cls, seq, alt, star, full_match, search_from, search_in, char, lit, opt, plus, times,
  up_to, at_least, one_of_these, between, upper, lower, digit, alnum,
}

-- `[A-Za-z_][A-Za-z0-9_]*`.
abbrev word_start : ℕ → Bool
word_start c = upper c || lower c || c == b'_'

abbrev word_rest : ℕ → Bool
word_rest c = alnum c || c == b'_'

unfoldable pub environment_name : List ℕ → Bool
environment_name = full_match (seq (cls word_start) (star (cls word_rest)))

-- `[A-Za-z0-9](?:[A-Za-z0-9-]{0,37}[A-Za-z0-9])?`, a GitHub login.
abbrev login : Regex
login = seq (cls alnum) (opt (seq (up_to 37 (cls (λ c. alnum c || c == b'-'))) (cls alnum)))

unfoldable pub github_login : List ℕ → Bool
github_login = full_match login

abbrev slug_char : ℕ → Bool
slug_char c = word_rest c || c == b'.' || c == b'-'

-- The login, `/`, and `[A-Za-z0-9_.-]{1,100}`.
unfoldable pub repository_slug : List ℕ → Bool
repository_slug =
    full_match (seq login (seq (char b'/') (seq (cls slug_char) (up_to 99 (cls slug_char)))))

-- The characters of an image reference.
abbrev image_char : ℕ → Bool
image_char c =
    alnum c
    || c == b'.'
    || c == b'_'
    || c == b'/'
    || c == b'@'
    || c == b':'
    || c == b'+'
    || c == b'-'

unfoldable pub safe_image : List ℕ → Bool
safe_image = full_match (seq (cls alnum) (up_to 254 (cls image_char)))

abbrev hex : ℕ → Bool
hex c = digit c || between b'a' b'f' c || between b'A' b'F' c

unfoldable pub pinned_image : List ℕ → Bool
pinned_image = full_match (
    seq (cls alnum)
      (seq (star (cls image_char)) (seq (lit (codes "@sha256:")) (times 64 (cls hex)))))

-- `re.IGNORECASE`: the ASCII letters with the four other characters that Python takes for them.
abbrev fold : ℕ → ℕ
fold c =
    if upper c
    then c + 32
    else if c == 383
    then b's'
    else if c == 8490
    then b'k'
    else if c == 304
    then b'i'
    else if c == 305
    then b'i'
    else c

abbrev lit_i : List ℕ → Regex
lit_i [] = eps
lit_i (c ∷ s) = seq (cls (λ d. fold d == fold c)) (lit_i s)

abbrev words_i : List String → Regex
words_i ws = one_of_these (map (λ w. lit_i (codes w)) ws)

-- A space or a dash.
abbrev gap : Regex
gap = cls (λ c. c == b' ' || c == b'-')

abbrev or_blank : List String → Regex
or_blank ws = opt (words_i ws)

-- `_SENSITIVE_SCOPE`, between its word boundaries. Its `\d` takes every decimal digit of Unicode.
abbrev sensitive_scope : (ℕ → Bool) → Regex
sensitive_scope is_decimal = one_of_these (
    words_i ("security" ∷ "vulnerability" ∷ "vulnerabilities" ∷ "credential" ∷ "credentials" ∷ [])
    ∷ seq (lit_i (codes "private")) (seq gap (lit_i (codes "key")))
    ∷ words_i (
        "authentication" ∷ "authorization" ∷ "cryptography" ∷ "cryptographic" ∷ "exploit"
        ∷ "exploitation" ∷ [])
    ∷ seq (words_i ("CVE-" ∷ "CWE-" ∷ [])) (plus (cls is_decimal))
    ∷ words_i ("XSS" ∷ "SQLi" ∷ "SQL injection" ∷ "remote code execution" ∷ "RCE" ∷ [])
    ∷ seq (lit_i (codes "cross")) (seq gap (lit_i (codes "site scripting")))
    ∷ words_i (
        "command injection" ∷ "path traversal" ∷ "directory traversal" ∷ "buffer overflow"
        ∷ "privilege escalation" ∷ "sandbox escape" ∷ "permission bypass" ∷ "CSRF" ∷ "SSRF" ∷ "XXE"
        ∷ "memory corruption" ∷ [])
    ∷ seq (lit_i (codes "use"))
        (seq gap (seq (lit_i (codes "after")) (seq gap (lit_i (codes "free")))))
    ∷ seq (lit_i (codes "access")) (seq gap (lit_i (codes "control bypass")))
    ∷ seq
        (alt (words_i ("secret" ∷ "token" ∷ "password" ∷ []))
          (seq (lit_i (codes "api")) (seq gap (lit_i (codes "key")))))
        (seq (or_blank ("s" ∷ [])) (
          seq gap (
            alt (seq (lit_i (codes "leak")) (or_blank ("ed" ∷ "age" ∷ "ing" ∷ []))) (
              alt (seq (lit_i (codes "expos")) (words_i ("ed" ∷ "ure" ∷ [])))
                (seq (lit_i (codes "disclos")) (words_i ("ed" ∷ "ure" ∷ [])))))))
    ∷ words_i (
        "infrastructure" ∷ "production access" ∷ "abuse report" ∷ "release pipeline"
        ∷ "github action" ∷ "github actions" ∷ "workflow permission" ∷ "workflow permissions"
        ∷ "legal" ∷ "license" ∷ "licensing" ∷ "copyright" ∷ "trademark" ∷ [])
    ∷ seq (lit_i (codes "supply")) (seq gap (lit_i (codes "chain")))
    ∷ [])

-- `\b`, over what counts as a character of a word.
abbrev in_word : (ℕ → Bool) → Option ℕ → Bool
in_word is_word none = false
in_word is_word (some c) = is_word c

abbrev boundary : (ℕ → Bool) → Option ℕ → Option ℕ → Bool
boundary is_word last next =
    if in_word is_word last then not (in_word is_word next) else in_word is_word next

unfoldable pub has_sensitive_scope : (is_word is_decimal : ℕ → Bool) → List ℕ → Bool
has_sensitive_scope is_word is_decimal =
    search_from (boundary is_word) (boundary is_word) (sensitive_scope is_decimal) none

-- `_SENSITIVE_LABEL`: a word between the ends of the label or characters that are no `[a-z0-9]`.
abbrev sensitive_label : Regex
sensitive_label = words_i (
    "security" ∷ "vulnerability" ∷ "cve" ∷ "cwe" ∷ "legal" ∷ "credential" ∷ "credentials" ∷ "auth"
    ∷ "crypto" ∷ "infrastructure" ∷ "abuse" ∷ "release" ∷ [])

abbrev no_alnum : Option ℕ → Bool
no_alnum none = true
no_alnum (some c) = not (lower (fold c) || digit c)

unfoldable pub is_sensitive_label : List ℕ → Bool
is_sensitive_label =
    search_from (λ last _. no_alnum last) (λ _ next. no_alnum next) sensitive_label none

-- `_SECRET_PATTERNS`.
abbrev private_key : Regex
private_key = seq (lit (codes "-----BEGIN ")) (
    seq
      (opt (
        one_of_these
          (map (λ w. lit (codes w)) ("RSA " ∷ "EC " ∷ "DSA " ∷ "OPENSSH " ∷ "PGP " ∷ []))))
      (seq (lit (codes "PRIVATE KEY")) (seq (opt (lit (codes " BLOCK"))) (lit (codes "-----")))))

abbrev token_shapes : Regex
token_shapes = one_of_these (
    seq (lit (codes "gh")) (
      seq (cls (λ c. c == b'p' || c == b'o' || c == b'u' || c == b's' || c == b'r'))
        (seq (char b'_') (at_least 20 (cls word_rest))))
    ∷ seq (lit (codes "github_pat_")) (at_least 20 (cls word_rest))
    ∷ seq (lit (codes "sk-")) (at_least 20 (cls (λ c. word_rest c || c == b'-')))
    ∷ [])

unfoldable pub has_secret : (ℕ → Bool) → List ℕ → Bool
has_secret is_word patch =
    let key = search_in private_key patch in
    key || search_from (boundary is_word) (boundary is_word) token_shapes none patch

-- `(?:new file mode|old mode|new mode) ` and the mode.
unfoldable pub has_mode : String → List ℕ → Bool
has_mode mode = search_in (
    seq
      (one_of_these (map (λ w. lit (codes w)) ("new file mode " ∷ "old mode " ∷ "new mode " ∷ [])))
      (lit (codes mode)))

abbrev ascii_word : ℕ → Bool
ascii_word c = word_rest c

scope_found : has_sensitive_scope ascii_word digit (codes "Fix Token-Leak!") ≡ true
unfolding has_sensitive_scope search_from
scope_found = refl

scope_missed : has_sensitive_scope ascii_word digit (codes "legally") ≡ false
unfolding has_sensitive_scope search_from
scope_missed = refl

-- "CVE-" and a digit of full width, where the table has it.
wide_found :
    has_sensitive_scope
      (λ c. word_rest c || c == 65297)
      (λ c. digit c || c == 65297)
      (codes "CVE-" ++ 65297 ∷ [])
    ≡ true
unfolding has_sensitive_scope search_from
wide_found = refl

label_found : is_sensitive_label (codes "area/Crypto") ≡ true
unfolding is_sensitive_label search_from
label_found = refl

mode_found : has_mode "120000" (codes "new file mode 120000") ≡ true
unfolding has_mode search_in
mode_found = refl
