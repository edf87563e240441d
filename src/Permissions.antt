-- ===== src/Permissions.antt =====
-- The permission engine: crates/valyria-permissions/src, with the vocabulary of
-- crates/valyria-types/src/policy.rs.
pub mod Request
pub mod Rules
pub mod Grants
pub mod Authorization
pub mod Engine
