-- ===== src/Runner/Containers/Laws.antt =====
-- No container is removed whose labels were not read and do not allow it (src/leftovers/runner.py).
use leftovers.Base.{
  if◌then◌else◌, All, String, ◌≡◌, refl, Bool, true, false, ◌&&◌, ◌||◌, Option, none, some, List,
  [], ◌∷◌, arith,
}
use leftovers.Base.Text.{str_eq, eq_iff}
use leftovers.Runner.Containers.{
  Labels, Event, inspected, removed, State, Act, Runtime, pure, ◌>>=◌, call, note, label,
  shown_labels, owns, note_labels, container_labels, add_if, choose, matching, remove_all,
  judge_left, none_left,
}

module _ (may : Labels → Bool) where
  -- The container was seen with labels that allow its removal.
  abbrev pub was_seen : String → List Event → Bool
  was_seen id [] = false
  was_seen id (inspected other labels ∷ t) = (str_eq other id && may labels) || was_seen id t
  was_seen id (removed other ∷ t) = was_seen id t

  -- The newest event first: each removal follows such a sight.
  abbrev pub IsJustified : List Event → Type 0
  IsJustified [] = Unit {0}
  IsJustified (inspected other labels ∷ t) = IsJustified t
  IsJustified (removed id ∷ t) = (was_seen id t ≡ true) × IsJustified t

  abbrev pub AllSeen : List String → List Event → Type 0
  AllSeen ids t = All (λ id. was_seen id t ≡ true) ids

-- From a trace with `P` the steps give a value and a trace with `Q`.
pub record Keeps {W A : Type 0} (P : List Event → Type 0) (m : Act W A)
    (Q : A → List Event → Type 0) : Type 0 where
  pub holds : (s : State W) → P s.trace → Q (m s).0 (m s).1.trace

module _ {W : Type 0} {P : List Event → Type 0} where
  pub Keeps-bind :
      {A B : Type 0} {Q : A → List Event → Type 0} {R : B → List Event → Type 0} {m : Act W A}
      {f : A → Act W B}
      → Keeps P m Q
      → ((a : A) → Keeps (Q a) (f a) R)
      → Keeps P (m >>= f) R
  unfolding ◌>>=◌
  Keeps-bind {A} {B} {Q} {R} {m} {f} h g = record {
    holds = λ s p. (g (m s).0).holds (m s).1 (h.holds s p);
  }

  pub Keeps-pure :
      {A : Type 0} {Q : A → List Event → Type 0} (a : A)
      → ((t : List Event) → P t → Q a t)
      → Keeps {W = W} P (pure a) Q
  unfolding pure
  Keeps-pure a h = record { holds = λ s p. h s.trace p }

  pub Keeps-call : {A : Type 0} (f : W → A × W) → Keeps P (call f) (λ _. P)
  unfolding call
  Keeps-call f = record { holds = λ s p. p }

  pub Keeps-note :
      {Q : List Event → Type 0} (event : Event)
      → ((t : List Event) → P t → Q (event ∷ t))
      → Keeps {W = W} P (note event) (λ _. Q)
  unfolding note
  Keeps-note event h = record { holds = λ s p. h s.trace p }

  pub Keeps-if :
      {A : Type 0} {Q : A → List Event → Type 0} {m k : Act W A} (b : Bool)
      → (b ≡ true → Keeps P m Q)
      → (b ≡ false → Keeps P k Q)
      → Keeps P (if b then m else k) Q
  Keeps-if true h g = h refl
  Keeps-if false h g = g refl

pub Keeps-from :
    {W A : Type 0} {P R : List Event → Type 0} {Q : A → List Event → Type 0} {m : Act W A}
    → ((t : List Event) → R t → P t)
    → Keeps P m Q
    → Keeps R m Q
Keeps-from f h = record { holds = λ s r. h.holds s (f s.trace r) }

module _ {W : Type 0} (runtime : Runtime W) (may : Labels → Bool) where
  -- What was read of a container, if anything was.
  abbrev pub Read : String → Option Labels → List Event → Type 0
  Read id none t = Unit {0}
  Read id (some labels) t = may labels ≡ true → was_seen may id t ≡ true

  seen_now :
      (id : String) (labels : Labels) (t : List Event)
      → may labels ≡ true
      → was_seen may id (inspected id labels ∷ t) ≡ true
  seen_now id labels t h = let same = (eq_iff id id).1 refl in ground arith

  pub seen_later :
      (id other : String) (labels : Labels) (t : List Event)
      → was_seen may id t ≡ true
      → was_seen may id (inspected other labels ∷ t) ≡ true
  seen_later id other labels t h = ground arith

  module _ {P : List Event → Type 0}
      (closed : (id : String) (labels : Labels) (t : List Event)
        → P t
        → P (inspected id labels ∷ t)) where
    note_labels-Keeps :
        (id : String) (found : Option Labels)
        → Keeps P (note_labels runtime id found) (λ r t. Read id r t × P t)
    note_labels-Keeps id none = Keeps-pure none (λ t p. (tt, p))
    note_labels-Keeps id (some labels) =
        Keeps-bind
          (Keeps-note {Q = λ t. Read id (some labels) t × P t} (inspected id labels)
            (λ t p. (λ h. seen_now id labels t h, closed id labels t p)))
          (λ _. Keeps-pure (some labels) (λ t p. p))

    pub container_labels-Keeps :
        (id : String) → Keeps P (container_labels runtime id) (λ r t. Read id r t × P t)
    unfolding container_labels
    container_labels-Keeps id =
        Keeps-bind (Keeps-call (runtime.inspect id))
          (λ shown. note_labels-Keeps id (shown_labels shown))

    judge_left-Keeps :
        (id stage : String) (found : Option Labels) {rest : Act W Bool}
        → Keeps P rest (λ _. P)
        → Keeps (λ t. Read id found t × P t) (judge_left runtime stage rest found) (λ _. P)
    judge_left-Keeps id stage none again = Keeps-pure false (λ t p. p.1)
    judge_left-Keeps id stage (some labels) again =
        Keeps-if (str_eq (label "io.leftovers.stage" labels) stage)
          (λ _. Keeps-pure false (λ t p. p.1)) (λ _. Keeps-from (λ t p. p.1) again)

    pub none_left-Keeps :
        (stage : String) (ids : List String) → Keeps P (none_left runtime stage ids) (λ _. P)
    unfolding none_left
    none_left-Keeps stage [] = Keeps-pure true (λ t p. p)
    none_left-Keeps stage (id ∷ ids) =
        Keeps-bind (container_labels-Keeps id)
          (λ found. judge_left-Keeps id stage found (none_left-Keeps stage ids))

  pub IsJustified-closed :
      (id : String) (labels : Labels) (t : List Event)
      → IsJustified may t
      → IsJustified may (inspected id labels ∷ t)
  IsJustified-closed id labels t p = p

  pub remove_all-Keeps :
      (ids : List String)
      → Keeps
          (λ t. AllSeen may ids t × IsJustified may t)
          (remove_all runtime ids)
          (λ _. IsJustified may)
  unfolding remove_all
  remove_all-Keeps [] = Keeps-pure true (λ t p. p.1)
  remove_all-Keeps (id ∷ ids) =
      Keeps-bind
        (Keeps-bind
          (Keeps-note {Q = λ t. AllSeen may ids t × IsJustified may t} (removed id)
            (λ t p. (all_kept id ids t p.0.1, (p.0.0, p.1))))
          (λ _. Keeps-call (runtime.remove id)))
        (λ gone. Keeps-if gone (λ _. remove_all-Keeps ids) (λ _. Keeps-pure false (λ t p. p.1)))
    where
      all_kept :
          (id : String) (ids : List String) (t : List Event)
          → AllSeen may ids t
          → AllSeen may ids (removed id ∷ t)
      all_kept id [] t h = tt
      all_kept id (x ∷ xs) t h = (h.0, all_kept id xs t h.1)

-- The removal of a job's containers.
module _ {W : Type 0} (runtime : Runtime W) (run_id : String) where
  abbrev pub IsClean : List Event → Type 0
  IsClean = IsJustified (owns run_id)

  -- The containers that were chosen were all seen to be the job's.
  abbrev pub Chosen : Option (List String) → List Event → Type 0
  Chosen none t = Unit {0}
  Chosen (some ids) t = AllSeen (owns run_id) ids t

  AllSeen-closed :
      (ids : List String) (id : String) (labels : Labels) (t : List Event)
      → AllSeen (owns run_id) ids t
      → AllSeen (owns run_id) ids (inspected id labels ∷ t)
  AllSeen-closed [] id labels t h = tt
  AllSeen-closed (x ∷ xs) id labels t h =
      (seen_later runtime (owns run_id) x id labels t h.0, AllSeen-closed xs id labels t h.1)

  add_if-Chosen :
      (test : Bool) (id : String) (rest : Option (List String)) (t : List Event)
      → was_seen (owns run_id) id t ≡ true
      → Chosen rest t
      → Chosen (add_if runtime test id rest) t
  add_if-Chosen test id none t h k = tt
  add_if-Chosen true id (some ids) t h k = (h, k)
  add_if-Chosen false id (some ids) t h k = k

  abbrev pub Known : (List Event → Type 0) → String → List Event → Type 0
  Known P id t = (was_seen (owns run_id) id t ≡ true) × P t

  choose-Keeps :
      {P : List Event → Type 0} (stage id : String) (found : Option Labels)
      {more : Act W (Option (List String))}
      → Keeps (Known P id) more (λ r t. Chosen r t × Known P id t)
      → Keeps
          (λ t. Read runtime (owns run_id) id found t × P t)
          (choose runtime run_id stage id more found)
          (λ r t. Chosen r t × P t)
  choose-Keeps stage id none again = Keeps-pure none (λ t p. (tt, p.1))
  choose-Keeps stage id (some labels) again =
      Keeps-if (owns run_id labels)
        (λ owned.
          Keeps-from (λ t p. (p.0 owned, p.1))
            (Keeps-bind again
              (λ rest. Keeps-pure _ (λ t p. (add_if-Chosen _ id rest t p.1.0 p.0, p.1.1)))))
        (λ _. Keeps-pure none (λ t p. (tt, p.1)))

  pub matching-Keeps :
      {P : List Event → Type 0} (stage : String) (ids : List String)
      → ((id : String) (labels : Labels) (t : List Event) → P t → P (inspected id labels ∷ t))
      → Keeps P (matching runtime run_id stage ids) (λ r t. Chosen r t × P t)
  unfolding matching
  matching-Keeps stage [] closed = Keeps-pure (some []) (λ t p. (tt, p))
  matching-Keeps {P} stage (id ∷ ids) closed =
      Keeps-bind (container_labels-Keeps runtime (owns run_id) closed id) (λ found.
        choose-Keeps stage id found (
          matching-Keeps {P = Known P id} stage ids (λ other ls t p.
            (seen_later runtime (owns run_id) id other ls t p.0, closed other ls t p.1))))
