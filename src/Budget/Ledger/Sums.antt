-- ===== src/Budget/Ledger/Sums.antt =====
-- The tokens that a window counts, under the two writes of the ledger.
use leftovers.Base.{
  if◌then◌else◌, Bool-cases, All, String, ◌≡◌, refl, sym, ap, ◌∙◌, inl, inr, true, false, [], ◌∷◌,
  ◌++◌, arith,
}
use leftovers.Base.Int.{ℤ, pos, ◌+ℤ◌, int_laws, +ℤ_assoc}
use leftovers.Base.Text.{str_eq}
use leftovers.Models.{Instant}
use leftovers.Models.Stages.{RunStage, value, value-ne-released}
use leftovers.Budget.Error.{WindowKey, daily, weekly}
use leftovers.Budget.Ledger.{Row, Table, key_eq, counts, reserved_tokens, finish}

pub key_eq→eq : (a b : WindowKey) → key_eq a b ≡ true → a ≡ b
key_eq→eq (daily a) (daily b) h = ap daily (ground arith)
key_eq→eq (daily a) (weekly b) h = cc
key_eq→eq (weekly a) (daily b) h = cc
key_eq→eq (weekly a) (weekly b) h = ap weekly (ground arith)

abbrev pub counted : WindowKey → Row → ℤ
counted key row = if counts key row then row.reserved_tokens else pos 0

pub reserved_tokens-append :
    (key : WindowKey) (table : Table) (row : Row)
    → reserved_tokens key (table ++ row ∷ []) ≡ reserved_tokens key table +ℤ counted key row
unfolding reserved_tokens
reserved_tokens-append key [] row = elim (Bool-cases (counts key row)) [
  | inl e ↦ rw e (omega int_laws)
  | inr e ↦ rw e (omega int_laws)
]
reserved_tokens-append key (x ∷ table) row = elim (Bool-cases (counts key x)) [
  | inl e ↦
      let tokens = x.reserved_tokens in
      let rest = reserved_tokens key table in
      rw e (
        ap (λ z. tokens +ℤ z) (reserved_tokens-append key table row)
        ∙ sym (+ℤ_assoc tokens rest (counted key row)))
  | inr e ↦ rw e (reserved_tokens-append key table row)
]

-- No row carries the status that takes it out of the sums.
abbrev pub NoneReleased : Table → Type 0
NoneReleased = All (λ (row : Row). str_eq row.status "released" ≡ false)

pub finish-NoneReleased :
    (run_id : String) (stage : RunStage) (now : Instant) (table : Table)
    → NoneReleased table
    → NoneReleased (finish run_id (value stage) now table)
unfolding finish
finish-NoneReleased run_id stage now [] h = tt
finish-NoneReleased run_id stage now (row ∷ table) h =
    elim (Bool-cases (str_eq row.run_id run_id)) [
      | inl e ↦ rw e (value-ne-released stage, finish-NoneReleased run_id stage now table h.1)
      | inr e ↦ rw e (h.0, finish-NoneReleased run_id stage now table h.1)
    ]

-- Ending a run by one of its stages gives no token back, in any window.
pub reserved_tokens-finish :
    (key : WindowKey) (run_id : String) (stage : RunStage) (now : Instant) (table : Table)
    → NoneReleased table
    → reserved_tokens key (finish run_id (value stage) now table) ≡ reserved_tokens key table
unfolding finish reserved_tokens
reserved_tokens-finish key run_id stage now [] h = refl
reserved_tokens-finish key run_id stage now (row ∷ table) h =
    elim (Bool-cases (str_eq row.run_id run_id)) [
      | inl e ↦
          rw
            (e, value-ne-released stage, h.0, reserved_tokens-finish key run_id stage now table h.1)
      | inr e ↦ rw (e, reserved_tokens-finish key run_id stage now table h.1)
    ]
