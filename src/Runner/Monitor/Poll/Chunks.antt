-- ===== src/Runner/Monitor/Poll/Chunks.antt =====
-- Reading the telemetry file (`poll` of src/leftovers/runner.py) in parts comes to reading it at once.
use mathlib.Core.List.{append-nil, append_assoc}
use leftovers.Base.{
  ◌==◌, Bool-cases, length, any, length-append, ℕ, ◌+◌, ◌≡◌, refl, sym, ap, ◌∙◌, inl, inr, Bool,
  true, false, not, List, [], ◌∷◌, ◌++◌, arith,
}
use leftovers.Base.Result.{err, ok, ◌>>=◌}
use leftovers.Runner.Payload.{Checked}
use leftovers.Runner.Monitor.{Telemetry, Monitor, Setting}
use leftovers.Runner.Monitor.Events.{consume}
use leftovers.Runner.Monitor.Poll.{cut, consume_all, feed}

-- A text with no line break, as the buffer is.
abbrev pub is_open : List ℕ → Bool
is_open s = not (any (λ c. c == 10) s)

-- Such a part is read again as it stands.
cut-part :
    (part rest s : List ℕ) → is_open rest ≡ true → cut part (rest ++ s) ≡ cut (part ++ rest) s
unfolding cut
cut-part part [] s h = rw (append-nil part) refl
cut-part part (c ∷ rest) s h = elim (Bool-cases (c == 10)) [
  | inl e ↦ ground arith
  | inr e ↦ rw e (
      cut-part (part ++ c ∷ []) rest s (ground arith)
      ∙ ap (λ p. cut p s) (append_assoc part (c ∷ []) rest))
]

is_open-append :
    (part : List ℕ) (c : ℕ)
    → is_open part ≡ true
    → (c == 10) ≡ false
    → is_open (part ++ c ∷ []) ≡ true
is_open-append [] c h e = ground arith
is_open-append (d ∷ part) c h e = let known = is_open-append part c (ground arith) e in ground arith

cut-is_open : (part s : List ℕ) → is_open part ≡ true → is_open (cut part s).1 ≡ true
unfolding cut
cut-is_open part [] h = h
cut-is_open part (c ∷ s) h = elim (Bool-cases (c == 10)) [
  | inl e ↦ rw e (cut-is_open [] s refl)
  | inr e ↦ rw e (cut-is_open (part ++ c ∷ []) s (is_open-append part c h e))
]

cut-append :
    (part s more : List ℕ)
    → cut part (s ++ more)
      ≡ ((cut part s).0 ++ (cut (cut part s).1 more).0, (cut (cut part s).1 more).1)
unfolding cut
cut-append part [] more = refl
cut-append part (c ∷ s) more = elim (Bool-cases (c == 10)) [
  | inl e ↦ rw (e, cut-append [] s more) refl
  | inr e ↦ rw e (cut-append (part ++ c ∷ []) s more)
]

consume_all-append :
    (setting : Setting) (xs ys : List (List ℕ)) (t : Telemetry)
    → consume_all setting (xs ++ ys) t ≡ (consume_all setting xs t >>= consume_all setting ys)
unfolding consume_all
consume_all-append setting [] ys t = refl
consume_all-append setting (x ∷ xs) ys t =
    elim (consume setting x t)
      as (λ r.
        (r >>= consume_all setting (xs ++ ys))
        ≡ ((r >>= consume_all setting xs) >>= consume_all setting ys)) [
          | err e ↦ refl
          | ok next ↦ consume_all-append setting xs ys next
        ]

-- Two binds, the second of which reads what the first one made.
join :
    {A B C : Type 0} (r : Checked A) (made : A → B) (next : B → Checked C) (both : A → Checked C)
    → ((a : A) → both a ≡ next (made a))
    → (r >>= both) ≡ ((r >>= λ a. ok (made a)) >>= next)
join (err e) made next both h = refl
join (ok a) made next both h = h a

bind_assoc :
    {A B C : Type 0} (r : Checked A) (f : A → Checked B) (g : B → Checked C)
    → ((r >>= f) >>= g) ≡ (r >>= λ a. f a >>= g)
bind_assoc (err e) f g = refl
bind_assoc (ok a) f g = refl

offset_eq :
    {A : Type 0} (n : ℕ) (xs ys : List A) → n + length (xs ++ ys) ≡ n + length xs + length ys
offset_eq n xs ys = omega (arith, length-append xs ys)

-- With the same clock, a chunk that comes in two parts leaves the monitor, or raises, as the whole
-- chunk does, wherever the cut falls: a line or a character may be split.
pub feed-append :
    (setting : Setting) (first second : List ℕ) (m : Monitor)
    → feed setting (first ++ second) m ≡ (feed setting first m >>= feed setting second)
unfolding feed
feed-append setting first second m =
    let before = cut [] (m.buffer ++ first) in
    let after = cut [] (before.1 ++ second) in
    let whole_parts : cut [] (m.buffer ++ (first ++ second)) ≡ (before.0 ++ after.0, after.1) =
      ap (cut []) (sym (append_assoc m.buffer first second))
      ∙ cut-append [] (m.buffer ++ first) second
      ∙ ap (λ q. (before.0 ++ q.0, q.1))
          (sym (cut-part [] before.1 second (cut-is_open [] (m.buffer ++ first) refl))) in
    let finish : ℕ → Telemetry → Checked Monitor =
      λ n t. ok (record m { offset = n; buffer = after.1; telemetry = t }) in
    ap
      (λ q. consume_all setting q.0 m.telemetry >>= λ t.
        ok (record m { offset = m.offset + length (first ++ second); buffer = q.1; telemetry = t }))
      whole_parts
    ∙ ap (λ n. consume_all setting (before.0 ++ after.0) m.telemetry >>= finish n)
        (offset_eq m.offset first second)
    ∙ ap (λ r. r >>= finish (m.offset + length first + length second))
        (consume_all-append setting before.0 after.0 m.telemetry)
    ∙ bind_assoc (consume_all setting before.0 m.telemetry) (consume_all setting after.0)
        (finish (m.offset + length first + length second))
    ∙ join (consume_all setting before.0 m.telemetry)
        (λ t. record m { offset = m.offset + length first; buffer = before.1; telemetry = t })
        (feed setting second)
        (λ t. consume_all setting after.0 t >>= finish (m.offset + length first + length second))
        (λ t. refl)
