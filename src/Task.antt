-- ===== src/Task.antt =====
-- Tasks, their journal and their events: crates/valyria-task/src.
pub mod Types
pub mod Kinds
pub mod Codec
pub mod World
pub mod Keeps
pub mod Journal
pub mod Rows
pub mod Startup
pub mod Append
pub mod Manager
