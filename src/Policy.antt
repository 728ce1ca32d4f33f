-- ===== src/Policy.antt =====
-- src/leftovers/policy.py: the deterministic gates on an issue and on a patch.
pub mod Dependencies
pub mod Failure
pub mod Modes
pub mod Candidate
pub mod Diff
pub mod Numstat
