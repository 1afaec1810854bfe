-- ===== src/Events.antt =====
-- libs/events: the event bus.
pub mod Channel
pub mod Lookup
pub mod Valid
pub mod Modes
mod Tests
