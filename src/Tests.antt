-- ===== src/Tests.antt =====
-- Sample values, and what the theorems say of them.
pub mod Samples
pub mod Budgets
pub mod Ledgers
pub mod Slots
pub mod Gates
pub mod Configs
pub mod Runs
pub mod Agents
pub mod Publishing
pub mod Containers
