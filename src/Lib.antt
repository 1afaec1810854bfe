-- ===== src/Lib.antt =====
-- DDRL-Nav2D: the C++ simulation worker and the libraries that it stands on.
--
-- A worker runs simulator threads. Each records what its robot did in a trajectory buffer, cuts the
-- record into rollouts and gives them to a publisher thread, which hands batches to the learner.
--
-- Worker/Trajectory: apps/worker/src/trajectory_buffer.cpp. `TrajectoryBuffer` is the class's
--   members, one function stands for each method, and an exception is `none`. Spec is the client's
--   view of it.
-- Worker/SimLoop: `sim_thread_main`, `handle_rollout_ready` and `reset_policy_context` of
--   apps/worker/src/worker.cpp. `poll` is one pass of the thread's loops after the stop token was
--   asked; `polls` counts the passes, so no fuel is needed. The simulator, the policy, the
--   observation encoder and the clock are fields of `Env`.
-- Worker/Startup: how `Worker::init` of apps/worker/src/worker.cpp divides the machine's threads.
-- Worker/Publisher: apps/worker/src/rollout_publisher.cpp. `thread_step` goes from one release of
--   the mutex to the next; Schedule interleaves it with the calls of the other threads.
-- Control: the connections to the learner. Subscriber is apps/worker/src/policy_subscriber.cpp, its
--   thread and its callers as interleaved steps; Stream is
--   apps/worker/src/rollout_stream_client.cpp. gRPC is a parameter.
--   Coordinator is apps/worker/src/coordinator_client.cpp: Threads has the steps of the heartbeat
--   thread, of its writer and of `stop`.
-- Events: libs/events/include/events/event_bus.hpp. `Channel` is the map of `Channel<T>`, one
--   function stands for each method, calls come one after another, and moodycamel's queue is the
--   parameter `SpscQueue` with its documented laws `IsFifo`.
-- Collision: the bounds of libs/core/include/core/geom/aabb.hpp and the tree over instances of
--   libs/collision/src/bvh.cpp, with `collect_overlaps` of
--   libs/collision/src/broad_phase.cpp. The recursion has the size of the range as fuel, and the
--   loop over the stack twice the number of instances. `std::nth_element` and the arithmetic of
--   `double` are parameters. Refit and BroadPhase model `refit`, `update_leaf` and the class
--   `BroadPhase::Impl`, Masks its `build_collision_masks`; Blas is
--   `BLAS2::build`. Sat is libs/collision/src/sat.cpp, the separating axis test of polygons,
--   with Shapes for the other shapes and Order for the projections on an axis; the arithmetic of
--   `double` is the parameter `Maths`.
-- Frames: `TfBuffer` of libs/core/src/transform/tf.cpp. The map is an association list; names,
--   stamps and poses are the parameter `Space`. `collect_chain` runs on fuel, of which the rank of a
--   frame in any ranking of children over parents is enough.
-- Sim/Object: `DynamicObject` of libs/sim/src/object.cpp, Motion its `update`. Sim/Maths holds the
--   arithmetic of `double` and <random> as the parameter `Maths`, with the helpers of core/math;
--   `turns` bounds the passes of the loops of `normalize_angle`.
-- Sim/Spawn: `SpawnManager` of libs/sim/src/spawn_manager.cpp: Geometry, Bias and Pose find a place
--   (Place says what the tests mean),
--   Despawn and Queue move objects between the queues and the active ones, Update is the
--   constructor and `update`. The hash set is a list whose order stands for its unspecified one.
--   The loop over a queue has the greatest number of attempts as fuel.
-- Sim/Curriculum: the curriculum of libs/sim/src/simulator.cpp and the settings that it makes for
--   the spawn manager.
-- Sim/Simulator: `integrate_until` and `publish_world_snapshot` of the same file, Step its `step`,
--   Reset its `reset`. The world, the reward function and the event bus are parameters; the loop
--   over physics steps has the number of passes as fuel, which is enough where `IsMeasured` bounds
--   those left.
-- Sim/World: `World::Impl` of libs/sim/src/world.cpp. Route is the robot's route and goal, Entities
--   the registry with the cache of collision instances, Severity and Collide the resolution of the
--   collisions, Update its `update`. The robot and the broad phase are the parameter `Surroundings`.
-- Threading: libs/threading/include/threading/thread_pool.hpp. A worker's step goes from one release
--   of the mutex to the next, and a schedule is a list of workers. The chunks of `parallel_for` have
--   the number of indices as fuel.
--
-- Not modelled: gRPC, ONNX Runtime, VTK, yaml-cpp and logging, which the sources only call; the
-- floating-point kinematics, sensors and ray casting of libs/sim and libs/collision, with
-- libs/sim/src/robot.cpp and the forward clearance of the world; and what only copies fields, reads
-- files or calls the parts above in turn: the world's constructor and snapshots, the maps, the
-- configuration, and the rest of the start and the stop of the worker.
pub mod Prelude
pub mod Collision
pub mod Control
pub mod Events
pub mod Frames
pub mod Sim
pub mod Threading
pub mod Worker
