-- ===== src/Sim/World.antt =====
-- `World::Impl` of libs/sim/src/world.cpp: the robot's route, the registry of entities with the
-- cache of their collision instances, the resolution of collisions, and `update`.
pub mod Route
pub mod Entities
pub mod Severity
pub mod Collide
pub mod Update
mod Tests
