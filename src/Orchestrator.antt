-- ===== src/Orchestrator.antt =====
-- The choice and the residence of models: crates/valyria-orchestrator, with the roles of
-- crates/valyria-model-registry.
pub mod Role
pub mod Pool
pub mod Structured
pub mod Json
pub mod Router
