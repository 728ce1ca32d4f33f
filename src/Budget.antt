-- ===== src/Budget.antt =====
-- src/leftovers/budget.py: quota windows, the gate that reads the quota, and the ledger of
-- reservations. The definitions are in `Window`, `Gate` and `Ledger`, their proofs below those.
pub mod Error
pub mod Zone
pub mod Numeral
pub mod Window
pub mod Gate
pub mod Ledger
