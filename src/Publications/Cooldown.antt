-- ===== src/Publications/Cooldown.antt =====
-- The cooldown: two publications to one repository are never closer than the configured days.
use leftovers.Publications.{Slot, is_held, days_before, is_recent, is_future, new_slot, finish}
use leftovers.Publications.Caps.{
  AllHeld, finish-AllHeld, IsAvailable, reserve_outcome, Step, reserved, published, Reached,
  created, next,
}
use leftovers.Base.{
  ltb, leb, Bool-cases, All, All-append, All-false, All-zip, ℕ, ◌+◌, ◌*◌, ◌<◌, String, ◌≡◌, refl,
  inl, inr, Bool, true, false, ◌&&◌, List, [], ◌∷◌, ◌++◌, arith,
}
use leftovers.Base.Int.{ℤ, pos, pos_part, ◌≤ℤ◌, neg_part_of_nonneg}
use leftovers.Base.Text.{str_eq}
use leftovers.Models.{Instant}
use leftovers.Config.{PublicationConfig}
use leftovers.Budget.Error.{WindowKey}
use leftovers.Budget.Zone.{day_us}

-- `later` is a slot of another repository, or comes more than `gap` microseconds after `earlier`.
abbrev pub Apart : ℕ → Slot → Slot → Type 0
Apart gap earlier later =
    str_eq earlier.repository later.repository ≡ true → earlier.created_at + gap < later.created_at

-- Every slot is apart from those that the table holds after it.
abbrev pub Spaced : ℕ → List Slot → Type 0
Spaced gap [] = Unit
Spaced gap (slot ∷ slots) = All (Apart gap slot) slots × Spaced gap slots

Spaced-append :
    (gap : ℕ) (slots : List Slot) (slot : Slot)
    → Spaced gap slots
    → All (λ x. Apart gap x slot) slots
    → Spaced gap (slots ++ slot ∷ [])
Spaced-append gap [] slot h k = (tt, tt)
Spaced-append gap (x ∷ slots) slot h k =
    (All-append (Apart gap x) slots (slot ∷ []) h.0 (k.0, tt), Spaced-append gap slots slot h.1 k.1)

finish-All-Apart :
    (gap : ℕ) (x : Slot) (run_id url : String) (slots : List Slot)
    → All (Apart gap x) slots
    → All (Apart gap x) (finish run_id url slots)
unfolding finish
finish-All-Apart gap x run_id url [] h = tt
finish-All-Apart gap x run_id url (slot ∷ slots) h = elim (Bool-cases (str_eq slot.run_id run_id)) [
  | inl e ↦ rw e (h.0, finish-All-Apart gap x run_id url slots h.1)
  | inr e ↦ rw e (h.0, finish-All-Apart gap x run_id url slots h.1)
]

finish-Spaced :
    (gap : ℕ) (run_id url : String) (slots : List Slot)
    → Spaced gap slots
    → Spaced gap (finish run_id url slots)
unfolding finish
finish-Spaced gap run_id url [] h = tt
finish-Spaced gap run_id url (slot ∷ slots) h = elim (Bool-cases (str_eq slot.run_id run_id)) [
  | inl e ↦
      rw e (finish-All-Apart gap slot run_id url slots h.0, finish-Spaced gap run_id url slots h.1)
  | inr e ↦
      rw e (finish-All-Apart gap slot run_id url slots h.0, finish-Spaced gap run_id url slots h.1)
]

missed :
    (same held cut past later : Bool)
    → held ≡ true
    → (same && (cut && past) && held) ≡ false
    → (same && later && held) ≡ false
    → same ≡ true
    → ((cut && past) ≡ false) × (later ≡ false)
missed same held cut past later h r f s = ground arith

-- A held slot that is neither recent nor in the future is older than the cooldown.
older :
    (days : ℤ) (now : Instant) (at : ℕ) (same held : Bool)
    → pos 0 ≤ℤ days
    → held ≡ true
    → (same && (leb (days_before now days) at && leb at now) && held) ≡ false
    → (same && ltb now at && held) ≡ false
    → same ≡ true
    → at + day_us * pos_part days < now
older days now at same held d0 h r f s =
    let e = neg_part_of_nonneg days d0 in
    let (cut, later) =
      missed same held (leb (days_before now days) at) (leb at now) (ltb now at) h r f s in
    ground arith

module _ (config : PublicationConfig) (d0 : pos 0 ≤ℤ config.repository_cooldown_days) where
  abbrev gap : ℕ
  gap = day_us * pos_part config.repository_cooldown_days

  abbrev Holds : List Slot → Type 0
  Holds slots = AllHeld slots × Spaced gap slots

  granted-Apart :
      (run_id : String) (key : WindowKey) (repository : String) (issue : ℤ) (now : Instant)
      (slots : List Slot)
      → AllHeld slots
      → IsAvailable slots key repository config now
      → All (λ x. Apart gap x (new_slot run_id key repository issue now)) slots
  granted-Apart run_id key repository issue now slots held a =
      let days = config.repository_cooldown_days in
      let recent = is_recent (days_before now days) now repository in
      let future = is_future now repository in
      All-zip (λ x. (recent x ≡ false) × (future x ≡ false)) (λ x. is_held x ≡ true)
        (λ x. Apart gap x (new_slot run_id key repository issue now)) slots
        (λ x p h.
          older days now x.created_at (str_eq x.repository repository) (is_held x) d0 h p.0 p.1)
        (All-zip _ _ _ slots (λ x p q. (p, q)) (All-false recent slots a.no_recent)
          (All-false future slots a.no_future))
        held

  Step-Holds : {slots after : List Slot} → Step config slots after → Holds slots → Holds after
  Step-Holds (reserved run_id key repository issue now slots) h =
      elim (reserve_outcome run_id key repository issue config now slots) [
        | inl same ↦ rw same h
        | inr (wrote, tests) ↦
            let slot = new_slot run_id key repository issue now in
            rw wrote (
              All-append _ slots (slot ∷ []) h.0 (refl, tt),
              Spaced-append gap slots slot h.1
                  (granted-Apart run_id key repository issue now slots h.0 tests),
            )
      ]
  Step-Holds (published run_id url slots) h =
      (finish-AllHeld run_id url slots h.0, finish-Spaced gap run_id url slots h.1)

  reached-Holds : {slots : List Slot} → Reached config slots → Holds slots
  reached-Holds created = (tt, tt)
  reached-Holds (next r st) = Step-Holds st (reached-Holds r)

-- Whatever slots controllers reserve and publish, in whatever order and whatever their clocks show,
-- from an empty ledger and under one configuration with a cooldown that is not negative: any two
-- slots of one repository lie more than the cooldown apart, the later one behind the earlier.
pub publication_cooldown :
    (config : PublicationConfig) (slots : List Slot)
    → pos 0 ≤ℤ config.repository_cooldown_days
    → Reached config slots
    → Spaced (day_us * pos_part config.repository_cooldown_days) slots
publication_cooldown config slots d0 r = (reached-Holds config d0 r).1
