-- ===== src/Sim/Spawn/Pose.antt =====
-- `find_spawn_pose` of libs/sim/src/spawn_manager.cpp: drawing positions around the robot until one
-- passes the tests. An index that a distribution draws beyond its weights is undefined behaviour in
-- the source and reads a blank sample here; `std::discrete_distribution` draws none.
use ddrl_nav2d.Prelude.{
  ℕ, zero, suc, ◌≡◌, Bool, true, false, not, ◌&&◌, if◌then◌else◌, List, [], ◌∷◌, Option, none, some,
  get_elem?, ◌⊎◌,
}
use ddrl_nav2d.Collision.Bounds.{Point2}
use ddrl_nav2d.Sim.Maths.{Maths, Pose2, contains, normalize_angle}
use ddrl_nav2d.Sim.Spawn.{Settings, MapConfig, SectorSample, DistanceBand, Manager}
use ddrl_nav2d.Sim.Spawn.Place.{Inside, IsClear, IsApart, IsUnseen, IsHidden}
use ddrl_nav2d.Sim.Spawn.Geometry.{is_in_fov, is_occluded, check_separation, check_static_collision}

abbrev or_blank {ℓ} : {A : Type ℓ} → A → Option A → A
or_blank a none = a
or_blank a (some b) = b

-- A predicate on the value of an option, where there is one.
abbrev pub Each {ℓ κ} : {A : Type ℓ} → (A → Type κ) → Option A → Type κ
Each P none = Unit
Each P (some a) = P a

module _ (M : Maths) where
  open M use {Real, add, sub, mul, neg}

  abbrev blank_sector : SectorSample M
  blank_sector = record { center = M.zero; half_angle = M.zero; weight = M.zero }

  abbrev blank_band : DistanceBand M
  blank_band = record { min = M.zero; max = M.zero; weight = M.zero }

  -- The angle in a sector of the given weights, which replaces the one drawn before it.
  sector_angle : Option (List Real) → List (SectorSample M) → Real × M.Engine → Real × M.Engine
  sector_angle none sectors drawn = drawn
  sector_angle (some weights) [] drawn = drawn
  sector_angle (some weights) (c ∷ cs) drawn =
      let idx = M.discrete weights drawn.1 in
      let sector = or_blank blank_sector (get_elem? (c ∷ cs) idx.0) in
      let offset = M.uniform_real (neg sector.half_angle) sector.half_angle idx.1 in
      (add sector.center offset.0, offset.1)

module _ (M : Maths) where
  open M use {Real, add, sub, mul, neg}

  -- A position at a random angle and distance from the robot.
  draw_position : Manager M → Pose2 M → List Real → M.Engine → Point2 M.double × M.Engine
  unfolding sector_angle
  draw_position s robot_pose band_weights rng =
      let angle =
        sector_angle M s.bias_cache.sector_dist s.bias_cache.sectors
          (M.uniform_real (neg M.pi) M.pi rng) in
      let idx = M.discrete band_weights angle.1 in
      let band = or_blank (blank_band M) (get_elem? s.bias_cache.bands idx.0) in
      let unit = M.uniform_real M.zero (M.decimal 1 0) idx.1 in
      let radius = add band.min (mul (sub band.max band.min) unit.0) in
      let world_angle = normalize_angle M (add robot_pose.yaw angle.0) in
      (
        record {
          x = add robot_pose.pos.x (mul radius (M.cos world_angle));
          y = add robot_pose.pos.y (mul radius (M.sin world_angle));
        },
        unit.1,
      )

module _ (M : Maths) (cfg : Settings M) (world : MapConfig M) where
  open M use {Real, sub}

  -- The tests of one pass of the loop, each of which may `continue`.
  unfoldable pub accepts : Manager M → Pose2 M → Point2 M.double → Bool
  accepts s robot_pose pos =
      if not (contains M world.bounds pos)
      then false
      else if check_static_collision M cfg world pos
      then false
      else if (cfg.avoid_fov && is_in_fov M cfg world robot_pose pos)
          && not (
              cfg.occlusion.allow_in_fov
              && is_occluded M cfg world s.objects s.active_objects robot_pose pos)
      then false
      else check_separation M cfg world s.objects s.active_objects pos

  -- The pose at an accepted position, which faces the robot.
  abbrev pub facing : Pose2 M → Point2 M.double → Pose2 M
  facing robot_pose pos = record {
    pos = pos;
    yaw = M.atan2 (sub robot_pose.pos.y pos.y) (sub robot_pose.pos.x pos.x);
  }

  abbrev pick :
      Bool
      → Pose2 M
      → Point2 M.double × M.Engine
      → (M.Engine → Option (Pose2 M) × M.Engine)
      → Option (Pose2 M) × M.Engine
  pick true robot_pose drawn more = (some (facing robot_pose drawn.0), drawn.1)
  pick false robot_pose drawn more = more drawn.1

  find_loop : ℕ → Manager M → Pose2 M → List Real → M.Engine → Option (Pose2 M) × M.Engine
  unfolding draw_position
  find_loop zero s robot_pose weights rng = (none, rng)
  find_loop (suc n) s robot_pose weights rng =
      let drawn = draw_position M s robot_pose weights rng in
      pick (accepts s robot_pose drawn.0) robot_pose drawn
        (λ later. find_loop n s robot_pose weights later)

  find_with :
      Option (List Real) → List (DistanceBand M) → Manager M → Pose2 M → Option (Pose2 M) × M.Engine
  unfolding find_loop
  find_with none bands s robot_pose = (none, s.rng)
  find_with (some weights) [] s robot_pose = (none, s.rng)
  find_with (some weights) (b ∷ bs) s robot_pose =
      find_loop cfg.max_position_samples s robot_pose weights s.rng

  -- The pose, if one was found, and the engine after the draws.
  unfoldable pub find_spawn_pose : Manager M → Pose2 M → Option (Pose2 M) × M.Engine
  unfolding find_with
  find_spawn_pose s robot_pose = find_with s.bias_cache.band_dist s.bias_cache.bands s robot_pose

  -- What the manager promises of a place to spawn at.
  pub Admissible : Manager M → Pose2 M → Pose2 M → Type 0
  Admissible s robot_pose pose =
      Inside M cfg world pose.pos
      × IsClear M cfg world pose.pos
      × IsApart M cfg world s.objects s.active_objects pose.pos
      × ((cfg.avoid_fov ≡ false)
          ⊎ (IsUnseen M cfg world robot_pose pose.pos
              ⊎ ((cfg.occlusion.allow_in_fov ≡ true)
                  × IsHidden M cfg world s.objects s.active_objects robot_pose pose.pos)))
      × (pose.yaw ≡ M.atan2 (sub robot_pose.pos.y pose.pos.y) (sub robot_pose.pos.x pose.pos.x))
