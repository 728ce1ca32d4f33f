-- ===== src/Publications/Caps.antt =====
-- The output cap: what controllers that share a state directory do never fills a window beyond it.
use leftovers.Publications.{
  Slot, StatePolicyError, is_held, count_held, days_before, is_recent, is_future, assert_available,
  has_run, new_slot, reserve, finish, commit,
}
use leftovers.Base.{
  if◌then◌else◌, Bool-cases, any, All, All-append, ℕ, ◌+◌, String, ◌≡◌, refl, ◌⊎◌, inl, inr, Bool,
  true, false, ◌&&◌, ◌||◌, List, [], ◌∷◌, ◌++◌, arith,
}
use leftovers.Base.Int.{ℤ, pos, ◌≤ℤ◌, leb_ℤ}
use leftovers.Base.Text.{str_eq}
use leftovers.Base.Result.{Result, ok, err, ◌>>◌, raise_if}
use leftovers.Models.{Instant}
use leftovers.Config.{PublicationConfig}
use leftovers.Budget.Error.{WindowKey}
use leftovers.Budget.Ledger.Sums.{key_eq→eq}
use leftovers.Budget.Ledger.{key_eq}

abbrev pub counted : WindowKey → Slot → ℕ
counted key slot = if key_eq slot.window_key key && is_held slot then 1 else 0

pub count_held-append :
    (key : WindowKey) (slots : List Slot) (slot : Slot)
    → count_held key (slots ++ slot ∷ []) ≡ count_held key slots + counted key slot
unfolding count_held
count_held-append key [] slot = ground arith
count_held-append key (x ∷ slots) slot = ground (arith, count_held-append key slots slot)

abbrev pub AllHeld : List Slot → Type 0
AllHeld = All (λ (slot : Slot). is_held slot ≡ true)

pub finish-AllHeld :
    (run_id url : String) (slots : List Slot) → AllHeld slots → AllHeld (finish run_id url slots)
unfolding finish
finish-AllHeld run_id url [] h = tt
finish-AllHeld run_id url (slot ∷ slots) h = elim (Bool-cases (str_eq slot.run_id run_id)) [
  | inl e ↦ rw e (refl, finish-AllHeld run_id url slots h.1)
  | inr e ↦ rw e (h.0, finish-AllHeld run_id url slots h.1)
]

pub count_held-finish :
    (key : WindowKey) (run_id url : String) (slots : List Slot)
    → AllHeld slots
    → count_held key (finish run_id url slots) ≡ count_held key slots
unfolding finish count_held
count_held-finish key run_id url [] h = refl
count_held-finish key run_id url (slot ∷ slots) h = elim (Bool-cases (str_eq slot.run_id run_id)) [
  | inl e ↦ rw (e, h.0, count_held-finish key run_id url slots h.1)
  | inr e ↦ rw (e, count_held-finish key run_id url slots h.1)
]

-- The two tests that a granted slot has passed.
pub record IsAvailable (slots : List Slot) (key : WindowKey) (repository : String)
    (config : PublicationConfig) (now : Instant) : Type 0 where
  pub under_cap : leb_ℤ config.max_prs_per_window (pos (count_held key slots)) ≡ false
  pub no_recent :
      any (is_recent (days_before now config.repository_cooldown_days) now repository) slots ≡ false
  pub no_future : any (is_future now repository) slots ≡ false

available :
    (a b c : Bool) (x y : StatePolicyError) (u : Unit {0})
    → (raise_if a x >> raise_if (b || c) y) ≡ ok u
    → (a ≡ false) × (b ≡ false) × (c ≡ false)
available a b c x y u h = ground arith

assert_available-IsAvailable :
    (slots : List Slot) (key : WindowKey) (repository : String) (config : PublicationConfig)
    (now : Instant) (u : Unit {0})
    → assert_available slots key repository config now ≡ ok u
    → IsAvailable slots key repository config now
unfolding assert_available
assert_available-IsAvailable slots key repository config now u h =
    let (under, recent, future) = available _ _ _ _ _ u h in
    record { under_cap = under; no_recent = recent; no_future = future }

commit_outcome :
    (r : Result StatePolicyError (Unit {0})) (slot : Slot) (slots : List Slot) {P : Type 0}
    → ((u : Unit {0}) → r ≡ ok u → P)
    → ((commit r slot slots).1 ≡ slots) ⊎ (((commit r slot slots).1 ≡ slots ++ slot ∷ []) × P)
commit_outcome (err e) slot slots f = inl refl
commit_outcome (ok u) slot slots f = inr (refl, f u refl)

pub reserve_outcome :
    (run_id : String) (key : WindowKey) (repository : String) (issue : ℤ)
    (config : PublicationConfig) (now : Instant) (slots : List Slot)
    → let after = (reserve run_id key repository issue config now slots).1 in
      (after ≡ slots)
      ⊎ ((after ≡ slots ++ new_slot run_id key repository issue now ∷ [])
          × IsAvailable slots key repository config now)
unfolding reserve
reserve_outcome run_id key repository issue config now slots =
    elim (Bool-cases (has_run run_id slots)) [
      | inl old ↦ rw old (inl refl)
      | inr new ↦ rw new (
          commit_outcome (assert_available slots key repository config now)
            (new_slot run_id key repository issue now) slots
            (assert_available-IsAvailable slots key repository config now))
    ]

-- What controllers do to the publication ledger under one configuration.
pub data Step (config : PublicationConfig) : List Slot → List Slot → Type 0 where
  reserved :
      (run_id : String) (key : WindowKey) (repository : String) (issue : ℤ) (now : Instant)
      (slots : List Slot)
      → Step config slots (reserve run_id key repository issue config now slots).1
  published :
      (run_id url : String) (slots : List Slot) → Step config slots (finish run_id url slots)

pub data Reached (config : PublicationConfig) : List Slot → Type 0 where
  created : Reached config []
  next :
      {slots after : List Slot}
      → Reached config slots
      → Step config slots after
      → Reached config after

under : (cap : ℤ) (n : ℕ) → leb_ℤ cap (pos n) ≡ false → pos (n + 1) ≤ℤ cap
under cap n h = ground arith

abbrev Holds : PublicationConfig → List Slot → Type 0
Holds config slots =
    AllHeld slots × ((key : WindowKey) → pos (count_held key slots) ≤ℤ config.max_prs_per_window)

granted_under :
    (config : PublicationConfig) (run_id : String) (key' : WindowKey) (repository : String)
    (issue : ℤ) (now : Instant) (slots : List Slot)
    → IsAvailable slots key' repository config now
    → ((key : WindowKey) → pos (count_held key slots) ≤ℤ config.max_prs_per_window)
    → (key : WindowKey)
    → pos (count_held key (slots ++ new_slot run_id key' repository issue now ∷ []))
      ≤ℤ config.max_prs_per_window
granted_under config run_id key' repository issue now slots a h key =
    elim (Bool-cases (key_eq key' key)) [
      | inl e ↦
          rw (count_held-append, e)
            (rw (← key_eq→eq key' key e)
              (under config.max_prs_per_window (count_held key' slots) a.under_cap))
      | inr e ↦ rw (count_held-append, e) (omega (arith, h key))
    ]

Step-Holds :
    {config : PublicationConfig} {slots after : List Slot}
    → Step config slots after
    → Holds config slots
    → Holds config after
Step-Holds {config} (reserved run_id key repository issue now slots) h =
    elim (reserve_outcome run_id key repository issue config now slots) [
      | inl same ↦ rw same h
      | inr (wrote, tests) ↦ rw wrote (
        All-append _ slots (new_slot run_id key repository issue now ∷ []) h.0 (refl, tt),
        granted_under config run_id key repository issue now slots tests h.1,
      )
    ]
Step-Holds {config} (published run_id url slots) h = (
  finish-AllHeld run_id url slots h.0,
  λ key. rw (count_held-finish key run_id url slots h.0) (h.1 key),
)

reached-Holds :
    {config : PublicationConfig} {slots : List Slot}
    → pos 0 ≤ℤ config.max_prs_per_window
    → Reached config slots
    → Holds config slots
unfolding count_held
reached-Holds zero_le created = (tt, λ key. zero_le)
reached-Holds zero_le (next r st) = Step-Holds st (reached-Holds zero_le r)

-- Whatever slots controllers reserve and publish, in whatever order and at whatever times, from an
-- empty ledger and under one configuration with a cap that is not negative: no window ever holds
-- more slots than the cap.
pub publication_cap :
    (config : PublicationConfig) (slots : List Slot) (key : WindowKey)
    → pos 0 ≤ℤ config.max_prs_per_window
    → Reached config slots
    → pos (count_held key slots) ≤ℤ config.max_prs_per_window
publication_cap config slots key zero_le r = (reached-Holds zero_le r).1 key
