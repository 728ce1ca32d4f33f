-- ===== src/Orchestrator.antt =====
-- `ContributionOrchestrator._run_cycle` and `run` of src/leftovers/orchestrator.py, and the order of
-- their steps. The controller's other parts, Git, the container runtime and GitHub answer its calls:
-- they are the record `Services`, over a state `W` of the world outside that the calls change.
pub mod Exec
pub mod Services
pub mod Failures
pub mod Cleanup
pub mod Admission
pub mod Selection
pub mod Tasks
pub mod Repair
pub mod Publish
pub mod Cycle
