-- ===== src/Budget/Ledger.antt =====
-- `BudgetLedger` of src/leftovers/budget.py. The table `reservations` is the list of its rows, and
-- each method is one transaction on it: SQLite's locks let no other connection in between.
pub mod Sums
pub mod Laws
pub mod Outcome
pub mod Envelope
use leftovers.Base.{
  ltb, ◌==◌, if◌then◌else◌, String, Bool, true, false, not, ◌&&◌, ◌||◌, Option, none, some, List,
  [], ◌∷◌, ◌++◌,
}
use leftovers.Base.Int.{ℤ, pos, negsuc, ◌+ℤ◌, ◌-ℤ◌, ltb_ℤ, leb_ℤ, max_ℤ}
use leftovers.Base.Text.{str_eq}
use leftovers.Base.Result.{Result, ok, err}
use leftovers.Models.{Instant, BudgetSnapshot}
use leftovers.Config.{BudgetConfig}
use leftovers.Config.Floats.{Floats}
use leftovers.Budget.Error.{
  WindowKey, daily, weekly, unknown_quota, stale_snapshot, window_changed, too_near_reset,
  window_exhausted, Raised, budget_error, integrity_error,
}
use leftovers.Budget.Zone.{Zone}
use leftovers.Budget.Window.{budget_window_key}
use leftovers.Budget.Gate.{elapsed, seconds, scaled, required_horizon}

-- What `datetime.fromisoformat` makes of a text of the column `created_at`.
pub data Stamp : Type 0 where
  aware : Instant → Stamp
  naive malformed : Stamp

pub record Row : Type 0 where
  pub run_id : String
  pub window_key : WindowKey
  pub reserved_tokens : ℤ
  pub status : String
  pub created_at : Stamp
  pub finished_at : Option Instant

abbrev pub Table : Type 0
Table = List Row

pub record BudgetReservation : Type 0 where
  pub run_id : String
  pub window_key : WindowKey
  pub reserved_tokens : ℤ
  pub remaining_after_reservation : ℤ

abbrev pub key_eq : WindowKey → WindowKey → Bool
key_eq (daily a) (daily b) = a == b
key_eq (daily a) (weekly b) = false
key_eq (weekly a) (daily b) = false
key_eq (weekly a) (weekly b) = a == b

-- `window_key = ? AND status != 'released'`.
abbrev pub counts : WindowKey → Row → Bool
counts key row = key_eq row.window_key key && not (str_eq row.status "released")

-- `SELECT COALESCE(SUM(reserved_tokens), 0)` over those rows.
unfoldable pub reserved_tokens : WindowKey → Table → ℤ
reserved_tokens key [] = pos 0
reserved_tokens key (row ∷ table) =
    let rest = reserved_tokens key table in
    if counts key row then row.reserved_tokens +ℤ rest else rest

-- `SELECT ... WHERE run_id = ?`: the column is the primary key.
unfoldable pub find_run : String → Table → Option Row
find_run run_id [] = none
find_run run_id (row ∷ table) = if str_eq row.run_id run_id then some row else find_run run_id table

-- The constraint `CHECK (reserved_tokens >= 0)` on the new row.
unfoldable pub insert_row : Row → Table → Option Table
insert_row row table = if ltb_ℤ row.reserved_tokens (pos 0) then none else some (table ++ row ∷ [])

abbrev pub completion_grace : ℤ
completion_grace = pos 7200

-- `age_seconds < -60 or age_seconds > 300`.
abbrev pub is_stale : Instant → Instant → Bool
is_stale current observed_at =
    ltb_ℤ (elapsed current observed_at) (seconds (negsuc 59))
    || ltb_ℤ (seconds (pos 300)) (elapsed current observed_at)

-- The row that a granted reservation writes.
abbrev pub new_row : String → WindowKey → ℤ → Instant → Row
new_row run_id key amount observed_at = record {
  run_id = run_id;
  window_key = key;
  reserved_tokens = amount;
  status = "reserved";
  created_at = aware observed_at;
  finished_at = none;
}

inserted : BudgetReservation → Option Table → Table → Result Raised BudgetReservation × Table
inserted granted none table = (err integrity_error, table)
inserted granted (some table') table = (ok granted, table')

module _ (floats : Floats) (config : BudgetConfig floats.Float) where
  abbrev pub live_horizon : ℤ
  live_horizon = required_horizon floats config +ℤ completion_grace

  -- The body of the loop of `active_run_ids`: whether the row protects its run.
  abbrev pub protects : Instant → Stamp → Bool
  protects current malformed = true
  protects current naive = true
  protects current (aware created) =
      ltb current created || leb_ℤ (elapsed current created) (seconds live_horizon)

  unfoldable pub active_run_ids : Instant → Table → List String
  active_run_ids current [] = []
  active_run_ids current (row ∷ table) =
      let rest = active_run_ids current table in
      if str_eq row.status "reserved" && protects current row.created_at
      then row.run_id ∷ rest
      else rest

  abbrev pub too_near : Instant → Option Instant → Bool
  too_near current none = true
  too_near current (some resets_at) =
      ltb_ℤ (elapsed resets_at current) (seconds (required_horizon floats config))

  -- The transaction of `reserve`, from `BEGIN IMMEDIATE` to its `COMMIT` or `ROLLBACK`.
  transact :
      String
      → WindowKey
      → ℤ
      → ℤ
      → Instant
      → Option Row
      → Table
      → Result Raised BudgetReservation × Table
  unfolding inserted
  transact run_id key spendable amount observed_at (some existing) table = (
    ok (record {
      run_id = run_id;
      window_key = existing.window_key;
      reserved_tokens = existing.reserved_tokens;
      remaining_after_reservation = max_ℤ (pos 0) (spendable -ℤ existing.reserved_tokens);
    }),
    table,
  )
  transact run_id key spendable amount observed_at none table =
      let available = max_ℤ (pos 0) (spendable -ℤ reserved_tokens key table) in
      let required = max_ℤ config.minimum_spendable_tokens amount in
      if ltb_ℤ available required
      then (err (budget_error (window_exhausted key available required)), table)
      else inserted
          (record {
            run_id = run_id;
            window_key = key;
            reserved_tokens = amount;
            remaining_after_reservation = available -ℤ amount;
          })
          (insert_row (new_row run_id key amount observed_at) table) table

  reserve_known :
      (String → Zone)
      → String
      → BudgetSnapshot
      → ℤ
      → Instant
      → Option ℤ
      → Table
      → Result Raised BudgetReservation × Table
  unfolding transact
  reserve_known zones run_id s estimated current none table =
      (err (budget_error unknown_quota), table)
  reserve_known zones run_id s estimated current (some spendable) table =
      let key = budget_window_key config zones s.observed_at in
      if is_stale current s.observed_at
      then (err (budget_error stale_snapshot), table)
      else if not (key_eq (budget_window_key config zones current) key)
      then (err (budget_error window_changed), table)
      else if too_near current s.resets_at
      then (err (budget_error too_near_reset), table)
      else transact run_id key spendable (scaled floats config estimated) s.observed_at
          (find_run run_id table) table

  unfoldable pub reserve :
      (String → Zone)
      → String
      → BudgetSnapshot
      → ℤ
      → Instant
      → Table
      → Result Raised BudgetReservation × Table
  unfolding reserve_known
  reserve zones run_id s estimated current table =
      reserve_known zones run_id s estimated current s.spendable_tokens table

-- `UPDATE reservations SET status = ?, finished_at = ? WHERE run_id = ?`.
unfoldable pub finish : String → String → Instant → Table → Table
finish run_id status now [] = []
finish run_id status now (row ∷ table) =
    (if str_eq row.run_id run_id
      then record row { status = status; finished_at = some now }
      else row)
    ∷ finish run_id status now table
