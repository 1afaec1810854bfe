-- ===== src/Control.antt =====
-- apps/worker: what connects the worker to the learner over gRPC, which is a parameter.
pub mod Subscriber
pub mod Stream
pub mod Coordinator
mod Tests
