-- ===== src/Sim/Spawn/Update.antt =====
-- The constructor, `update` and `get_stats` of `SpawnManager` of libs/sim/src/spawn_manager.cpp.
-- The constructor throws without a configuration or a map, which is `none`.
use ddrl_nav2d.Prelude.{
  ℕ, zero, suc, true, false, ◌&&◌, if◌then◌else◌, List, [], ◌∷◌, Option, none, some, length,
}
use ddrl_nav2d.Sim.Maths.{Maths, Pose2, point, distance}
use ddrl_nav2d.Sim.Object.{Object}
use ddrl_nav2d.Sim.Spawn.{
  SpawnPriority, DespawnReason, Settings, MapConfig, Manager, enqueue_object, total_queued,
}
use ddrl_nav2d.Sim.Spawn.Bias.{prepare_spawn_bias}
use ddrl_nav2d.Sim.Spawn.Despawn.{move_object_out_of_bounds, check_and_despawn_objects}
use ddrl_nav2d.Sim.Spawn.Queue.{spawn_from_queue, ensure_minimum_active}

module _ (M : Maths) where
  pub record Stats : Type 0 where
    pub active_count : ℕ
    pub queued_count : ℕ
    pub total_spawns : ℕ
    pub total_despawns : ℕ
    pub failed_spawn_attempts : ℕ
    pub current_min_spawn_dist : M.Real
    pub current_max_spawn_dist : M.Real

module _ (M : Maths) where
  open M use {lt}

  abbrev pub get_stats : Manager M → Stats M
  get_stats s = record {
    active_count = length s.active_objects;
    queued_count = total_queued s;
    total_spawns = s.total_spawns;
    total_despawns = s.total_despawns;
    failed_spawn_attempts = s.failed_spawn_attempts;
    current_min_spawn_dist = s.current_min_spawn_dist;
    current_max_spawn_dist = s.current_max_spawn_dist;
  }

  unfoldable pub update_robot_motion : M.Real → Pose2 M → Manager M → Manager M
  update_robot_motion dt robot_pose s =
      let dist = distance M robot_pose.pos s.last_robot_pose.pos in
      record s {
        robot_speed_mps =
            if s.has_last_robot_pose && lt (M.decimal 1 4) dt then M.div dist dt else M.zero;
        last_robot_pose = robot_pose;
        has_last_robot_pose = true;
      }

module _ (M : Maths) (cfg : Settings M) where
  unfoldable pub update_curriculum_distances : Manager M → Manager M
  update_curriculum_distances s = record s {
    current_min_spawn_dist = cfg.min_spawn_distance;
    current_max_spawn_dist = cfg.max_spawn_distance;
  }

module _ (M : Maths) (cfg : Settings M) (world : MapConfig M) where
  -- Every object, from the index `i` on, is queued and moved away.
  abbrev pub enqueue_from : ℕ → ℕ → Manager M → Manager M
  enqueue_from i zero s = s
  enqueue_from i (suc n) s = enqueue_from (suc i) n (
      move_object_out_of_bounds M world i
        (enqueue_object i SpawnPriority.low DespawnReason.initial s))

  abbrev pub fresh_manager : List (Object M) → ℕ → Manager M
  fresh_manager objects rng_seed = record {
    objects = objects;
    priority_queues = record { high = []; normal = []; low = [] };
    active_objects = [];
    stuck_since = [];
    reroute_next_attempt = [];
    total_spawns = 0;
    total_despawns = 0;
    failed_spawn_attempts = 0;
    queue_clock = M.zero;
    current_min_spawn_dist = cfg.min_spawn_distance;
    current_max_spawn_dist = cfg.max_spawn_distance;
    last_robot_pose = record { pos = point M M.zero M.zero; yaw = M.zero };
    has_last_robot_pose = false;
    robot_speed_mps = M.zero;
    rng = M.engine rng_seed;
    bias_cache = record { sectors = []; bands = []; sector_dist = none; band_dist = none };
  }

  -- The constructor, once the pointers to the configurations are known not to be null.
  unfoldable pub make_manager : List (Object M) → ℕ → Manager M
  make_manager objects rng_seed = enqueue_from 0 (length objects) (fresh_manager objects rng_seed)

  -- The robot's speed, the distances and the clock.
  unfoldable pub begin_frame : M.Real → Pose2 M → Manager M → Manager M
  begin_frame dt robot_pose s =
      let moved = update_curriculum_distances M cfg (update_robot_motion M dt robot_pose s) in
      record moved { queue_clock = M.add moved.queue_clock dt }

  abbrev pub update_frame : M.Real → Pose2 M → List (Object M) → Manager M → Manager M
  update_frame dt robot_pose [] s = s
  update_frame dt robot_pose (o ∷ os) s =
      let checked =
        check_and_despawn_objects M cfg world robot_pose (begin_frame dt robot_pose s) in
      let spawned =
        spawn_from_queue M cfg world robot_pose cfg.max_spawns_per_frame
          cfg.max_spawn_attempts_per_frame (prepare_spawn_bias M cfg checked) in
      ensure_minimum_active M cfg world robot_pose spawned

  unfoldable pub update : M.Real → Pose2 M → Manager M → Manager M
  update dt robot_pose s = update_frame dt robot_pose s.objects s

module _ (M : Maths) where
  abbrev pub new_manager :
      Option (Settings M) → Option (MapConfig M) → List (Object M) → ℕ → Option (Manager M)
  new_manager none world objects rng_seed = none
  new_manager (some cfg) none objects rng_seed = none
  new_manager (some cfg) (some world) objects rng_seed =
      some (make_manager M cfg world objects rng_seed)
