-- ===== src/Budget/Ledger/Outcome.antt =====
-- What `BudgetLedger.reserve` (src/leftovers/budget.py) answers, and why.
use leftovers.Base.{
  Bool-cases, Option-cases, String, ◌≡◌, refl, subst, ◌⊎◌, inl, inr, true, false, Option, none,
  some,
}
use leftovers.Base.Int.{ℤ, pos, ◌-ℤ◌, ltb_ℤ, max_ℤ}
use leftovers.Base.Result.{Result, err, ok}
use leftovers.Models.{Instant, BudgetSnapshot}
use leftovers.Config.{BudgetConfig}
use leftovers.Config.Floats.{Floats}
use leftovers.Budget.Error.{WindowKey, Raised}
use leftovers.Budget.Zone.{Zone}
use leftovers.Budget.Window.{budget_window_key}
use leftovers.Budget.Gate.{scaled}
use leftovers.Budget.Ledger.{
  Row, Table, BudgetReservation, key_eq, reserved_tokens, find_run, insert_row, is_stale, too_near,
  reserve, inserted, transact, reserve_known,
}
use leftovers.Budget.Ledger.Laws.{Wrote}

module _ (floats : Floats) (config : BudgetConfig floats.Float) (zones : String → Zone)
    (run_id : String) (s : BudgetSnapshot) (e : ℤ) (now : Instant) (table : Table) where
  abbrev pub key : WindowKey
  key = budget_window_key config zones s.observed_at

  abbrev amount : ℤ
  amount = scaled floats config e

  -- The snapshot is recent, of the window that it is now, and far enough from its reset.
  pub record IsTimely : Type 0 where
    pub fresh : is_stale now s.observed_at ≡ false
    pub same_window : key_eq (budget_window_key config zones now) key ≡ true
    pub far_enough : too_near floats config now s.resets_at ≡ false

  -- Why a reservation is refused: one of the snapshot's tests fails, or, for a run without a row,
  -- the window has too little left, or the amount is negative.
  abbrev pub HasReason : Type 0
  HasReason =
      (s.spendable_tokens ≡ none)
      ⊎ (is_stale now s.observed_at ≡ true)
      ⊎ (key_eq (budget_window_key config zones now) key ≡ false)
      ⊎ (too_near floats config now s.resets_at ≡ true)
      ⊎ ((n : ℤ) × (s.spendable_tokens ≡ some n)
          × (find_run run_id table ≡ none)
          × ((ltb_ℤ (max_ℤ (pos 0) (n -ℤ reserved_tokens key table))
                  (max_ℤ config.minimum_spendable_tokens amount)
                ≡ true)
              ⊎ (ltb_ℤ amount (pos 0) ≡ true)))

  abbrev pub IsRefused : Result Raised BudgetReservation × Table → Type 0
  IsRefused after = (r : Raised) × (after ≡ (err r, table)) × HasReason

  -- The run has a row: what the row says is granted again, and nothing is written.
  abbrev pub IsRepeated : Result Raised BudgetReservation × Table → Type 0
  IsRepeated after =
      (n : ℤ) × (row : Row) × (s.spendable_tokens ≡ some n)
      × (find_run run_id table ≡ some row)
      × IsTimely
      × (after ≡ (
        ok (record {
          run_id = run_id;
          window_key = row.window_key;
          reserved_tokens = row.reserved_tokens;
          remaining_after_reservation = max_ℤ (pos 0) (n -ℤ row.reserved_tokens);
        }),
        table,
      ))

  abbrev pub IsNew : Result Raised BudgetReservation × Table → Type 0
  IsNew after =
      (n : ℤ) × (s.spendable_tokens ≡ some n)
      × IsTimely
      × Wrote floats config run_id key n amount s.observed_at table after

  abbrev Answered : Result Raised BudgetReservation × Table → Type 0
  Answered after = IsRefused after ⊎ IsRepeated after ⊎ IsNew after

  transact-Answered :
      (n : ℤ)
      → s.spendable_tokens ≡ some n
      → IsTimely
      → Answered
          (transact floats config run_id key n amount s.observed_at (find_run run_id table) table)
  unfolding transact insert_row
  transact-Answered n known timely = elim (Option-cases (find_run run_id table)) [
    | inr (row, old) ↦ rw old (inr (inl (n, row, known, refl, timely, refl)))
    | inl new ↦
        elim (Bool-cases (
          ltb_ℤ (max_ℤ (pos 0) (n -ℤ reserved_tokens key table))
            (max_ℤ config.minimum_spendable_tokens amount))) [
              | inl short ↦
                  rw (new, short) (inl (_, refl, inr (inr (inr (inr (n, known, refl, inl short))))))
              | inr fits ↦ elim (Bool-cases (ltb_ℤ amount (pos 0))) [
                | inl negative ↦
                    rw (new, fits, negative, inserted)
                      (inl (_, refl, inr (inr (inr (inr (n, known, refl, inr refl))))))
                | inr nonneg ↦
                    rw (new, fits, nonneg, inserted)
                      (inr (
                        inr (
                          n,
                          known,
                          timely,
                          (refl, refl, refl, record { fits = fits; nonneg = nonneg }),
                        )))
              ]
            ]
  ]

  reserve_known-eq :
      (n : ℤ)
      → IsTimely
      → transact floats config run_id key n amount s.observed_at (find_run run_id table) table
        ≡ reserve_known floats config zones run_id s e now (some n) table
  unfolding reserve_known
  reserve_known-eq n timely = rw (timely.fresh, timely.same_window, timely.far_enough) refl

  reserve_known-Answered :
      (spendable : Option ℤ)
      → s.spendable_tokens ≡ spendable
      → Answered (reserve_known floats config zones run_id s e now spendable table)
  unfolding reserve_known
  reserve_known-Answered none unknown = inl (_, refl, inl unknown)
  reserve_known-Answered (some n) known = elim (Bool-cases (is_stale now s.observed_at)) [
    | inl stale ↦ rw stale (inl (_, refl, inr (inl refl)))
    | inr fresh ↦ elim (Bool-cases (key_eq (budget_window_key config zones now) key)) [
      | inr changed ↦ rw (fresh, changed) (inl (_, refl, inr (inr (inl refl))))
      | inl same_window ↦ elim (Bool-cases (too_near floats config now s.resets_at)) [
        | inl near ↦ rw (fresh, same_window, near) (inl (_, refl, inr (inr (inr (inl refl)))))
        | inr far ↦
            let timely : IsTimely = record {
              fresh = fresh;
              same_window = same_window;
              far_enough = far;
            } in
            subst Answered (reserve_known-eq n timely) (transact-Answered n known timely)
      ]
    ]
  ]

  -- `reserve` answers in one of three ways. It refuses, for a reason that holds, and writes nothing.
  -- Or the run has a row already: then the row's reservation is granted again and nothing is written.
  -- Or it grants the scaled estimate and writes exactly one row, of a run without one, and what the
  -- window has left covers the amount and the least that has to be spendable. A grant of either kind
  -- comes from a snapshot that is recent, of the window that it is now, and far enough from its reset.
  pub reserve_outcome :
      let after = reserve floats config zones run_id s e now table in
      IsRefused after ⊎ IsRepeated after ⊎ IsNew after
  reserve_outcome = unfold reserve in reserve_known-Answered s.spendable_tokens refl
