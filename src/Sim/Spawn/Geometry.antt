-- ===== src/Sim/Spawn/Geometry.antt =====
-- The tests of libs/sim/src/spawn_manager.cpp on a position: `is_in_fov`, `is_occluded`,
-- `is_visible_to_robot`, `check_separation` and `check_static_collision`, on the objects and the
-- indices of the active ones.
use ddrl_nav2d.Prelude.{
  ℕ, Bool, true, false, not, ◌&&◌, ◌||◌, if◌then◌else◌, List, [], ◌∷◌, Option, none, some,
  get_elem?,
}
use ddrl_nav2d.Collision.Bounds.{Point2, std_max}
use ddrl_nav2d.Sim.Maths.{Maths, Pose2, distance, normalize_angle, segment_intersects_circle}
use ddrl_nav2d.Sim.Object.{Object, is_active}
use ddrl_nav2d.Sim.Spawn.{Settings, MapConfig}

-- `std::ranges::any_of` and `std::ranges::all_of`
abbrev pub any_of {ℓ} : {A : Type ℓ} → (A → Bool) → List A → Bool
any_of f [] = false
any_of f (x ∷ xs) = f x || any_of f xs

abbrev pub all_of {ℓ} : {A : Type ℓ} → (A → Bool) → List A → Bool
all_of f [] = true
all_of f (x ∷ xs) = f x && all_of f xs

module _ (M : Maths) (cfg : Settings M) (world : MapConfig M) where
  open M use {Real, lt, le, add, sub, mul, div, decimal}

  unfoldable pub is_in_fov : Pose2 M → Point2 M.double → Bool
  is_in_fov robot_pose point =
      let dx = sub point.x robot_pose.pos.x in
      let dy = sub point.y robot_pose.pos.y in
      let dist = M.sqrt (add (mul dx dx) (mul dy dy)) in
      let angle_diff = M.fabs (normalize_angle M (sub (M.atan2 dy dx) robot_pose.yaw)) in
      let half_fov = mul (div (mul cfg.fov_angle_deg M.pi) (decimal 180 0)) M.half in
      if lt cfg.fov_distance dist then false else lt angle_diff half_fov

  unfoldable pub blocks : Pose2 M → Point2 M.double → Real → Option (Object M) → Bool
  blocks robot_pose candidate_pos radius none = false
  blocks robot_pose candidate_pos radius (some obj) =
      is_active M obj
      && segment_intersects_circle M robot_pose.pos candidate_pos obj.current_pose.pos radius

  unfoldable pub is_occluded : List (Object M) → List ℕ → Pose2 M → Point2 M.double → Bool
  unfolding blocks
  is_occluded objects active robot_pose candidate_pos =
      let radius_static = std_max M.double M.zero cfg.occlusion.static_blocker_radius in
      let radius_dyn = std_max M.double M.zero cfg.occlusion.dynamic_blocker_radius in
      if not cfg.occlusion.allow_in_fov
      then false
      else if le radius_static M.zero && le radius_dyn M.zero
      then false
      else ((lt M.zero radius_static && cfg.respect_map_geometry)
          && any_of
              (λ pos. segment_intersects_circle M robot_pose.pos candidate_pos pos radius_static)
              world.static_instances)
        || (lt M.zero radius_dyn
            && any_of (λ i. blocks robot_pose candidate_pos radius_dyn (get_elem? objects i))
                active)

  unfoldable pub is_visible_to_robot : List (Object M) → List ℕ → Pose2 M → Pose2 M → Bool
  is_visible_to_robot objects active robot_pose obj_pose =
      is_in_fov robot_pose obj_pose.pos && not (is_occluded objects active robot_pose obj_pose.pos)

  abbrev pub apart_from : Point2 M.double → Option (Object M) → Bool
  apart_from candidate_pos none = true
  apart_from candidate_pos (some obj) =
      if not (is_active M obj)
      then true
      else le cfg.min_inter_object_distance (distance M candidate_pos obj.current_pose.pos)

  unfoldable pub check_separation : List (Object M) → List ℕ → Point2 M.double → Bool
  check_separation objects active candidate_pos =
      all_of (λ i. apart_from candidate_pos (get_elem? objects i)) active

  -- `kMinSafetyRadius` is 2.5.
  unfoldable pub check_static_collision : Point2 M.double → Bool
  check_static_collision candidate_pos =
      if not cfg.respect_map_geometry
      then false
      else any_of (λ pos. lt (distance M candidate_pos pos) (decimal 25 1)) world.static_instances
