-- ===== src/Plan.antt =====
-- The plan engine: crates/valyria-plan.
pub mod FindCycle
pub mod Model
pub mod Validate
pub mod Waves
pub mod Repair
pub mod Schedule
