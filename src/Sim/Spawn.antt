-- ===== src/Sim/Spawn.antt =====
-- The state of `SpawnManager::Impl` of libs/sim/src/spawn_manager.cpp, with the types of
-- libs/sim/include/sim/spawn_manager.hpp and libs/config/include/config/simulator.hpp.
-- The three queues are lists; `active_objects_` is a list without repetitions whose order stands for
-- the unspecified order of the hash set; the two maps of times are association lists; a discrete
-- distribution is its list of weights. The counters of the statistics wrap around at 2 ^ 64.
pub mod Geometry
pub mod Bias
pub mod Place
pub mod Pose
pub mod Reroute
pub mod Despawn
pub mod Queue
pub mod Update
pub mod Counts
pub mod Consistent
pub mod Keeps
pub mod QueueKeeps
pub mod Limits
pub mod Seen
pub mod Start
pub mod Runs
use ddrl_nav2d.Prelude.{
  ℕ, suc, ◌+◌, ◌%◌, ◌^◌, Bool, true, false, if◌then◌else◌, ◌||◌, List, [], ◌∷◌, ◌++◌, map, Option,
  none, some, length, get_elem?, set, ◌==◌, leb,
}
use ddrl_nav2d.Collision.Bounds.{Point2, Aabb2}
use ddrl_nav2d.Sim.Maths.{Maths, Pose2}
use ddrl_nav2d.Sim.Object.{Object, teleport, deactivate}

pub data SpawnPriority : Type 0 where
  high : SpawnPriority
  normal : SpawnPriority
  low : SpawnPriority

pub data DespawnReason : Type 0 where
  collision : DespawnReason
  too_far : DespawnReason
  too_close : DespawnReason
  stuck : DespawnReason
  manual : DespawnReason
  initial : DespawnReason

module _ (M : Maths) where
  pub record AngularBias : Type 0 where
    pub front_angle_deg : M.Real
    pub flank_angle_deg : M.Real
    pub rear_angle_deg : M.Real
    pub front_weight : M.Real
    pub flank_weight : M.Real
    pub rear_weight : M.Real

  pub record DistanceBias : Type 0 where
    pub near_distance : M.Real
    pub far_distance : M.Real
    pub near_weight_slow : M.Real
    pub near_weight_fast : M.Real
    pub far_weight_slow : M.Real
    pub far_weight_fast : M.Real
    pub slow_speed_mps : M.Real
    pub fast_speed_mps : M.Real

  pub record OcclusionSettings : Type 0 where
    pub allow_in_fov : Bool
    pub static_blocker_radius : M.Real
    pub dynamic_blocker_radius : M.Real

module _ (M : Maths) where
  -- `config::SpawnManagerConfig`
  pub record Settings : Type 0 where
    pub min_spawn_distance : M.Real
    pub max_spawn_distance : M.Real
    pub min_inter_object_distance : M.Real
    pub fov_angle_deg : M.Real
    pub fov_distance : M.Real
    pub max_sensor_range : M.Real
    pub max_despawn_distance : M.Real
    pub stuck_timeout : M.Real
    pub avoid_fov : Bool
    pub angular_bias : AngularBias M
    pub distance_bias : DistanceBias M
    pub occlusion : OcclusionSettings M
    pub respect_map_geometry : Bool
    pub max_spawns_per_frame : ℕ
    pub max_spawn_attempts_per_frame : ℕ
    pub min_active_objects : ℕ
    pub max_active_objects : ℕ
    pub max_position_samples : ℕ

  -- What the manager reads of `config::MapConfig`: where the static instances stand, and the bounds.
  pub record MapConfig : Type 0 where
    pub static_instances : List (Point2 M.double)
    pub bounds : Aabb2 M.double

  pub record QueuedObject : Type 0 where
    pub object_index : ℕ
    pub priority : SpawnPriority
    pub queued_since : M.Real
    pub last_despawn_reason : DespawnReason
    pub timestamp : M.Real

  pub record SectorSample : Type 0 where
    pub center : M.Real
    pub half_angle : M.Real
    pub weight : M.Real

  pub record DistanceBand : Type 0 where
    pub min : M.Real
    pub max : M.Real
    pub weight : M.Real

module _ (M : Maths) where
  pub record Queues : Type 0 where
    pub high : List (QueuedObject M)
    pub normal : List (QueuedObject M)
    pub low : List (QueuedObject M)

  pub record SpawnBiasCache : Type 0 where
    pub sectors : List (SectorSample M)
    pub bands : List (DistanceBand M)
    pub sector_dist : Option (List M.Real)
    pub band_dist : Option (List M.Real)

module _ (M : Maths) where
  pub record Manager : Type 0 where
    pub objects : List (Object M)
    pub priority_queues : Queues M
    pub active_objects : List ℕ
    pub stuck_since : List (ℕ × M.Real)
    pub reroute_next_attempt : List (ℕ × M.Real)
    pub total_spawns : ℕ
    pub total_despawns : ℕ
    pub failed_spawn_attempts : ℕ
    pub queue_clock : M.Real
    pub current_min_spawn_dist : M.Real
    pub current_max_spawn_dist : M.Real
    pub last_robot_pose : Pose2 M
    pub has_last_robot_pose : Bool
    pub robot_speed_mps : M.Real
    pub rng : M.Engine
    pub bias_cache : SpawnBiasCache M

-- `++` on `std::size_t`
abbrev pub increment : ℕ → ℕ
increment n = (n + 1) % 2 ^ 64

-- `find`, `insert` and `erase` of a `std::unordered_set`
abbrev pub has : ℕ → List ℕ → Bool
has i [] = false
has i (x ∷ xs) = (i == x) || has i xs

abbrev pub insert : ℕ → List ℕ → List ℕ
insert i xs = if has i xs then xs else i ∷ xs

abbrev pub remove : ℕ → List ℕ → List ℕ
remove i [] = []
remove i (x ∷ xs) = let rest = remove i xs in if i == x then xs else x ∷ rest

-- `find`, `erase` and an assignment of a `std::unordered_map`
module _ {A : Type 0} where
  abbrev pub at_key : ℕ → List (ℕ × A) → Option A
  at_key i [] = none
  at_key i (x ∷ xs) = let rest = at_key i xs in if i == x.0 then some x.1 else rest

  abbrev pub erase_key : ℕ → List (ℕ × A) → List (ℕ × A)
  erase_key i [] = []
  erase_key i (x ∷ xs) = let rest = erase_key i xs in if i == x.0 then rest else x ∷ rest

  abbrev pub put_key : ℕ → A → List (ℕ × A) → List (ℕ × A)
  put_key i a xs = (i, a) ∷ erase_key i xs

module _ {M : Maths} where
  abbrev pub queue_of : SpawnPriority → Queues M → List (QueuedObject M)
  queue_of SpawnPriority.high q = q.high
  queue_of SpawnPriority.normal q = q.normal
  queue_of SpawnPriority.low q = q.low

  abbrev pub set_queue : SpawnPriority → List (QueuedObject M) → Queues M → Queues M
  set_queue SpawnPriority.high es q = record q { high = es }
  set_queue SpawnPriority.normal es q = record q { normal = es }
  set_queue SpawnPriority.low es q = record q { low = es }

  unfoldable pub total_queued : Manager M → ℕ
  total_queued s =
      length s.priority_queues.high + length s.priority_queues.normal + length s.priority_queues.low

  abbrev pub push_entry : SpawnPriority → QueuedObject M → Queues M → Queues M
  push_entry p e q = set_queue p (queue_of p q ++ (e ∷ [])) q

  unfoldable pub enqueue_object : ℕ → SpawnPriority → DespawnReason → Manager M → Manager M
  enqueue_object object_index priority reason s =
      let entry : QueuedObject M = record {
        object_index = object_index;
        priority = priority;
        queued_since = s.queue_clock;
        last_despawn_reason = reason;
        timestamp = s.queue_clock;
      } in
      record s { priority_queues = push_entry priority entry s.priority_queues }

module _ (M : Maths) (world : MapConfig M) where
  open M use {Real, add, sub, mul, decimal}

  -- Where objects that are not in use stand: ten diagonals of the map beyond its upper corner.
  unfoldable pub out_of_bounds_pose : Pose2 M
  out_of_bounds_pose =
      let width = M.pow (sub world.bounds.max.x world.bounds.min.x) (decimal 2 0) in
      let height = M.pow (sub world.bounds.max.y world.bounds.min.y) (decimal 2 0) in
      let offset = mul (M.sqrt (add width height)) (decimal 10 0) in
      record {
        pos = record { x = add world.bounds.max.x offset; y = add world.bounds.max.y offset };
        yaw = M.zero;
      }
