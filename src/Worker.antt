-- ===== src/Worker.antt =====
-- apps/worker: the path of experience from a simulator thread to the learner.
mod Tests
pub mod Trajectory
pub mod Publisher
pub mod SimLoop
pub mod Startup
