-- ===== src/Runner.antt =====
-- src/leftovers/runner.py: what the controller accepts from the agents that it runs, and which of their
-- containers it removes.
pub mod Payload
pub mod Complexity
pub mod Monitor
pub mod Containers
