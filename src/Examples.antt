-- ===== src/Examples.antt =====
-- Tests of the modelled parts of crates/ at concrete inputs.
pub mod Agent
pub mod Context
pub mod Edit
pub mod Events
pub mod Ledger
pub mod Orchestrator
pub mod Process
pub mod Permissions
pub mod Plan
pub mod State
pub mod Task
