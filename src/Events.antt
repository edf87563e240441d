-- ===== src/Events.antt =====
-- The event log and its subscribers: crates/valyria-events.
pub mod Bus
