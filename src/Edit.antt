-- ===== src/Edit.antt =====
-- Edits of files: crates/valyria-edit.
pub mod Strategy
pub mod Transaction
