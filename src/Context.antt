-- ===== src/Context.antt =====
-- The assembly of a prompt: crates/valyria-context.
pub mod Budget
