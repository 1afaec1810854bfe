-- ===== src/Frames.antt =====
-- libs/core/src/transform: the tree of coordinate frames.
pub mod Buffer
pub mod History
pub mod Lookup
mod Tests
