-- ===== src/Process.antt =====
-- Child processes: crates/valyria-process.
pub mod OutputCap
