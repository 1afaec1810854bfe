-- ===== src/Sim.antt =====
-- libs/sim: the dynamic objects, the manager that spawns them around the robot, the world and the
-- simulator over it./
pub mod Maths
pub mod Object
pub mod Spawn
pub mod Curriculum
pub mod Simulator
pub mod Tests
pub mod World
