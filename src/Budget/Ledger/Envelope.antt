-- ===== src/Budget/Ledger/Envelope.antt =====
-- Repeated and concurrent runs cannot spend one quota envelope twice.
use leftovers.Base.{
  Bool-cases, All-append, String, ◌≡◌, refl, subst, inl, inr, true, false, Option, none, some,
  some-injective, [], ◌∷◌, ◌++◌,
}
use leftovers.Base.Int.{ℤ, pos, ◌≤ℤ◌, +ℤ_zero}
use leftovers.Models.{Instant, BudgetSnapshot}
use leftovers.Models.Stages.{RunStage, value}
use leftovers.Config.{BudgetConfig}
use leftovers.Config.Floats.{Floats}
use leftovers.Budget.Error.{WindowKey}
use leftovers.Budget.Zone.{Zone}
use leftovers.Budget.Window.{budget_window_key}
use leftovers.Budget.Gate.{scaled}
use leftovers.Budget.Ledger.{Table, key_eq, reserved_tokens, new_row, reserve, finish}
use leftovers.Budget.Ledger.Sums.{
  key_eq→eq, counted, reserved_tokens-append, NoneReleased, finish-NoneReleased,
  reserved_tokens-finish,
}
use leftovers.Budget.Ledger.Laws.{room, IsGranted, reserve-changes}

-- A known spendable quota is at most `cap`.
abbrev pub AtMost : ℤ → Option ℤ → Type 0
AtMost cap none = Unit
AtMost cap (some n) = n ≤ℤ cap

at_most : (cap n : ℤ) (o : Option ℤ) → o ≡ some n → AtMost cap o → n ≤ℤ cap
at_most cap n none e h = cc
at_most cap n (some m) e h = subst (λ (k : ℤ). k ≤ℤ cap) (some-injective m n e) h

module _ (floats : Floats) (config : BudgetConfig floats.Float) (zones : String → Zone) where
  counted_other :
      (key : WindowKey) (run_id : String) (key' : WindowKey) (amount : ℤ) (at : Instant)
      → key_eq key' key ≡ false
      → counted key (new_row run_id key' amount at) ≡ pos 0
  counted_other key run_id key' amount at h = rw h

  counted_same :
      (key : WindowKey) (run_id : String) (key' : WindowKey) (amount : ℤ) (at : Instant)
      → key_eq key' key ≡ true
      → counted key (new_row run_id key' amount at) ≡ amount
  counted_same key run_id key' amount at h = rw h

  wrote_within :
      (key : WindowKey) (cap : ℤ) (run_id : String) (key' : WindowKey) (n amount : ℤ) (at : Instant)
      (table : Table)
      → (key' ≡ key → n ≤ℤ cap)
      → IsGranted floats config key' n amount table
      → reserved_tokens key table ≤ℤ cap
      → reserved_tokens key (table ++ new_row run_id key' amount at ∷ []) ≤ℤ cap
  wrote_within key cap run_id key' n amount at table below g h =
      elim (Bool-cases (key_eq key' key)) [
        | inl e ↦
            let same = key_eq→eq key' key e in
            rw (reserved_tokens-append, counted_same key run_id key' amount at e)
              (room n (reserved_tokens key table) config.minimum_spendable_tokens amount cap
                (rw same at g.fits) g.nonneg (below same) h)
        | inr e ↦ rw (reserved_tokens-append, counted_other key run_id key' amount at e, +ℤ_zero) h
      ]

  -- What the controllers that share a state directory do to its ledger: each reserves on a
  -- snapshot of its own, or ends a run by one of the stages of a run.
  pub data Step (key : WindowKey) (cap : ℤ) : Table → Table → Type 0 where
    reserved :
        (run_id : String) (s : BudgetSnapshot) (e : ℤ) (now : Instant) (table : Table)
        → (budget_window_key config zones s.observed_at ≡ key → AtMost cap s.spendable_tokens)
        → Step key cap table (reserve floats config zones run_id s e now table).1
    ended :
        (run_id : String) (stage : RunStage) (now : Instant) (table : Table)
        → Step key cap table (finish run_id (value stage) now table)

  pub data Reached (key : WindowKey) (cap : ℤ) : Table → Type 0 where
    created : Reached key cap []
    next :
        {table after : Table}
        → Reached key cap table
        → Step key cap table after
        → Reached key cap after

  abbrev Holds : WindowKey → ℤ → Table → Type 0
  Holds key cap table = NoneReleased table × (reserved_tokens key table ≤ℤ cap)

  Step-Holds :
      {key : WindowKey} {cap : ℤ} {table after : Table}
      → Step key cap table after
      → Holds key cap table
      → Holds key cap after
  Step-Holds {key} {cap} (reserved run_id s e now table below) h =
      elim (reserve-changes floats config zones run_id s e now table) [
        | inl same ↦ rw same h
        | inr (n, known, (_, _, wrote, tests)) ↦
            let key' = budget_window_key config zones s.observed_at in
            rw wrote (
              All-append _ table (new_row run_id key' (scaled floats config e) s.observed_at ∷ [])
                  h.0 (refl, tt),
              wrote_within key cap run_id key' n (scaled floats config e) s.observed_at table
                  (λ same. at_most cap n s.spendable_tokens known (below same)) tests h.1,
            )
      ]
  Step-Holds {key} {cap} (ended run_id stage now table) h = (
    finish-NoneReleased run_id stage now table h.0,
    rw (reserved_tokens-finish key run_id stage now table h.0) h.1,
  )

  reached-Holds :
      {key : WindowKey} {cap : ℤ} {table : Table}
      → pos 0 ≤ℤ cap
      → Reached key cap table
      → Holds key cap table
  unfolding reserved_tokens
  reached-Holds zero_le created = (tt, zero_le)
  reached-Holds zero_le (next r st) = Step-Holds st (reached-Holds zero_le r)

  -- Whatever runs reserve and end in whatever order, from an empty ledger: where no snapshot taken
  -- in a window shows more than `cap` spendable tokens, the ledger counts at most `cap` tokens
  -- in that window. Ending a run gives nothing back.
  pub envelope :
      (key : WindowKey) (cap : ℤ) (table : Table)
      → pos 0 ≤ℤ cap
      → Reached key cap table
      → reserved_tokens key table ≤ℤ cap
  envelope key cap table zero_le r = (reached-Holds zero_le r).1
