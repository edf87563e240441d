-- ===== src/Agent.antt =====
-- The agent's guards against endless work: crates/valyria-agent.
pub mod LoopDetect
pub mod Repair
