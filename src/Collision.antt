-- ===== src/Collision.antt =====
-- libs/collision: the bounding volume hierarchy of the broad phase, and the narrow phase.
pub mod Bounds
pub mod Sat
pub mod Tree
pub mod Shape
pub mod Layout
pub mod Builds
pub mod Query
pub mod Traverse
pub mod Hits
pub mod Rebuild
pub mod Overlaps
pub mod Refit
pub mod BroadPhase
pub mod Queries
pub mod Masks
pub mod Blas
mod Tests
