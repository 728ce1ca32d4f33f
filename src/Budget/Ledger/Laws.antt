-- ===== src/Budget/Ledger/Laws.antt =====
-- Repeated runs cannot spend one quota envelope twice.
use leftovers.Base.{
  if◌then◌else◌, Bool-cases, Option-cases, String, ◌≡◌, refl, ◌⊎◌, inl, inr, Bool, true, false, not,
  Option, none, some, [], ◌∷◌, ◌++◌, arith,
}
use leftovers.Base.Int.{ℤ, pos, ◌+ℤ◌, ◌-ℤ◌, ◌≤ℤ◌, ltb_ℤ, max_ℤ, int_laws}
use leftovers.Base.Result.{Result, ok, err}
use leftovers.Models.{Instant, BudgetSnapshot}
use leftovers.Config.{BudgetConfig}
use leftovers.Config.Floats.{Floats}
use leftovers.Budget.Error.{
  WindowKey, stale_snapshot, window_changed, too_near_reset, Raised, budget_error,
}
use leftovers.Budget.Zone.{Zone}
use leftovers.Budget.Window.{budget_window_key}
use leftovers.Budget.Gate.{scaled}
use leftovers.Budget.Ledger.{
  Table, BudgetReservation, key_eq, reserved_tokens, find_run, insert_row, is_stale, new_row,
  too_near, reserve, inserted, transact, reserve_known,
}

-- A granted amount fits above what the window counts already, unless it is nothing.
positive_room :
    (d least amount : ℤ)
    → ltb_ℤ (max_ℤ (pos 0) d) (max_ℤ least amount) ≡ false
    → ltb_ℤ amount (pos 0) ≡ false
    → (amount ≡ pos 0) ⊎ (amount ≤ℤ d)
positive_room d least amount fits nonneg = ground arith

pub room :
    (spendable used least amount cap : ℤ)
    → ltb_ℤ (max_ℤ (pos 0) (spendable -ℤ used)) (max_ℤ least amount) ≡ false
    → ltb_ℤ amount (pos 0) ≡ false
    → spendable ≤ℤ cap
    → used ≤ℤ cap
    → used +ℤ amount ≤ℤ cap
room spendable used least amount cap fits nonneg s u =
    elim (positive_room (spendable -ℤ used) least amount fits nonneg) [
      | inl e ↦ rw e (omega int_laws)
      | inr le ↦ omega int_laws
    ]

-- A call that refuses by one of three tests before it does anything leaves the table alone.
refusals :
    (W : Result Raised BudgetReservation × Table → Type 0) (a b c : Bool) (x y z : Raised)
    (table : Table) (k : Result Raised BudgetReservation × Table)
    → ((k.1 ≡ table) ⊎ W k)
    → let r : Result Raised BudgetReservation × Table =
        (if a
          then (err x, table)
          else if b
          then (err y, table)
          else if c
          then (err z, table)
          else k) in
      (r.1 ≡ table) ⊎ W r
refusals W true b c x y z table k h = inl refl
refusals W false true c x y z table k h = inl refl
refusals W false false true x y z table k h = inl refl
refusals W false false false x y z table k h = h

module _ (floats : Floats) (config : BudgetConfig floats.Float) where
  -- The tests that a reservation of `amount` tokens has passed before its row was written.
  pub record IsGranted (key : WindowKey) (spendable amount : ℤ) (table : Table) : Type 0 where
    pub fits :
        ltb_ℤ
          (max_ℤ (pos 0) (spendable -ℤ reserved_tokens key table))
          (max_ℤ config.minimum_spendable_tokens amount)
        ≡ false
    pub nonneg : ltb_ℤ amount (pos 0) ≡ false

  module _ (run_id : String) (key : WindowKey) (spendable amount : ℤ) (at : Instant)
      (table : Table) where
    abbrev pub Wrote : Result Raised BudgetReservation × Table → Type 0
    Wrote after =
        (find_run run_id table ≡ none)
        × (after.0
            ≡ ok (record {
              run_id = run_id;
              window_key = key;
              reserved_tokens = amount;
              remaining_after_reservation =
                  max_ℤ (pos 0) (spendable -ℤ reserved_tokens key table) -ℤ amount;
            }))
        × (after.1 ≡ table ++ new_row run_id key amount at ∷ [])
        × IsGranted key spendable amount table

    transact_outcome :
        let after =
          transact floats config run_id key spendable amount at (find_run run_id table) table in
        (after.1 ≡ table) ⊎ Wrote after
    unfolding transact insert_row
    transact_outcome =
        let available = max_ℤ (pos 0) (spendable -ℤ reserved_tokens key table) in
        let short = ltb_ℤ available (max_ℤ config.minimum_spendable_tokens amount) in
        elim (Option-cases (find_run run_id table)) [
          | inr (row, old) ↦ rw old (inl refl)
          | inl new ↦ elim (Bool-cases short) [
            | inl e ↦ rw (new, e) (inl refl)
            | inr fits ↦ elim (Bool-cases (ltb_ℤ amount (pos 0))) [
              | inl e ↦ rw (new, fits, e, inserted) (inl refl)
              | inr nonneg ↦
                  rw (new, fits, nonneg, inserted)
                    (inr (refl, refl, refl, record { fits = fits; nonneg = nonneg }))
            ]
          ]
        ]

  granted :
      (run_id : String) (key : WindowKey) (amount : ℤ) (at : Instant) (table : Table) (n : ℤ)
      (after : Result Raised BudgetReservation × Table)
      → (after.1 ≡ table) ⊎ Wrote run_id key n amount at table after
      → (after.1 ≡ table) ⊎ ((m : ℤ) × (some n ≡ some m) × Wrote run_id key m amount at table after)
  granted run_id key amount at table n after (inl same) = inl same
  granted run_id key amount at table n after (inr wrote) = inr (n, refl, wrote)

  reserve_known_outcome :
      (zones : String → Zone) (run_id : String) (s : BudgetSnapshot) (e : ℤ) (now : Instant)
      (spendable : Option ℤ) (table : Table)
      → let after = reserve_known floats config zones run_id s e now spendable table in
        (after.1 ≡ table)
        ⊎ ((n : ℤ) × (spendable ≡ some n)
            × (Wrote run_id
                (budget_window_key config zones s.observed_at)
                n
                (scaled floats config e)
                s.observed_at
                table
                after))
  unfolding reserve_known
  reserve_known_outcome zones run_id s e now none table = inl refl
  reserve_known_outcome zones run_id s e now (some n) table =
      let key = budget_window_key config zones s.observed_at in
      let amount = scaled floats config e in
      let at = s.observed_at in
      refusals (λ after. (m : ℤ) × (some n ≡ some m) × Wrote run_id key m amount at table after)
        (is_stale now s.observed_at) (not (key_eq (budget_window_key config zones now) key))
        (too_near floats config now s.resets_at) (budget_error stale_snapshot)
        (budget_error window_changed) (budget_error too_near_reset) table
        (transact floats config run_id key n amount at (find_run run_id table) table)
        (granted run_id key amount at table n _ (transact_outcome run_id key n amount at table))

  -- The table alone: it is as before, or it has a row more, which passed the tests of the amount.
  pub reserve-changes :
      (zones : String → Zone) (run_id : String) (s : BudgetSnapshot) (e : ℤ) (now : Instant)
      (table : Table)
      → let after = reserve floats config zones run_id s e now table in
        (after.1 ≡ table)
        ⊎ ((n : ℤ) × (s.spendable_tokens ≡ some n)
            × (Wrote run_id
                (budget_window_key config zones s.observed_at)
                n
                (scaled floats config e)
                s.observed_at
                table
                after))
  reserve-changes zones run_id s e now table =
      unfold reserve in reserve_known_outcome zones run_id s e now s.spendable_tokens table
