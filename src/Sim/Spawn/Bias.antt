-- ===== src/Sim/Spawn/Bias.antt =====
-- Where libs/sim/src/spawn_manager.cpp likes to spawn: the sectors around the robot and the bands of
-- distance with their weights, and the distributions over them.
use ddrl_nav2d.Prelude.{◌||◌, if◌then◌else◌, List, [], ◌∷◌, ◌++◌, map, Option, none, some}
use ddrl_nav2d.Collision.Bounds.{std_max}
use ddrl_nav2d.Sim.Maths.{Maths, clamp}
use ddrl_nav2d.Sim.Spawn.{Settings, SectorSample, DistanceBand, Manager}

module _ (M : Maths) where
  open M use {Real, lt, le, add, sub, mul, div, decimal, neg}

  abbrev push_sector : Real → Real → Real → List (SectorSample M) → List (SectorSample M)
  push_sector center half_angle weight sectors =
      if le half_angle M.zero || le weight M.zero
      then sectors
      else sectors ++ (record { center = center; half_angle = half_angle; weight = weight } ∷ [])

  abbrev half_of_deg : Real → Real
  half_of_deg deg = mul (div (mul (clamp M deg M.zero (decimal 360 0)) M.pi) (decimal 180 0)) M.half

  abbrev pub add_band : Real → Real → Real → List (DistanceBand M) → List (DistanceBand M)
  add_band min_val max_val weight bands =
      if le (sub max_val min_val) (decimal 1 3) || le weight M.zero
      then bands
      else bands ++ (record { min = min_val; max = max_val; weight = weight } ∷ [])

  -- A single band over the whole range, where no band was added.
  abbrev pub or_whole_range : Real → Real → List (DistanceBand M) → List (DistanceBand M)
  or_whole_range min_dist max_dist [] =
      record { min = min_dist; max = max_dist; weight = decimal 1 0 } ∷ []
  or_whole_range min_dist max_dist (b ∷ bs) = b ∷ bs

  abbrev pub total_weight : Real → List Real → Real
  total_weight acc [] = acc
  total_weight acc (w ∷ ws) = total_weight (add acc w) ws

  -- The weights of the distribution; no weights, or none that are positive, make none.
  abbrev pub build_distribution : List Real → Option (List Real)
  build_distribution [] = none
  build_distribution (w ∷ ws) =
      if le (total_weight M.zero (w ∷ ws)) M.zero then none else some (w ∷ ws)

module _ (M : Maths) (cfg : Settings M) where
  open M use {Real, lt, le, add, sub, mul, div, decimal, neg}

  unfoldable pub build_sector_bias : List (SectorSample M)
  build_sector_bias =
      let bias = cfg.angular_bias in
      let front_half = half_of_deg M bias.front_angle_deg in
      let flank_half = half_of_deg M bias.flank_angle_deg in
      let rear_half = half_of_deg M bias.rear_angle_deg in
      let left_center = add front_half flank_half in
      push_sector M M.pi rear_half bias.rear_weight (
        push_sector M (neg left_center) flank_half bias.flank_weight (
          push_sector M left_center flank_half bias.flank_weight
            (push_sector M M.zero front_half bias.front_weight [])))

  unfoldable pub blend_weight : Real → Real → Real → Real
  blend_weight robot_speed_mps slow_weight fast_weight =
      let slow = cfg.distance_bias.slow_speed_mps in
      let fast = std_max M.double cfg.distance_bias.fast_speed_mps (add slow (decimal 1 0)) in
      let t = div (sub robot_speed_mps slow) (sub fast slow) in
      if le robot_speed_mps slow
      then slow_weight
      else if le fast robot_speed_mps
      then fast_weight
      else add slow_weight (mul t (sub fast_weight slow_weight))

  unfoldable pub build_distance_bands : Manager M → List (DistanceBand M)
  build_distance_bands s =
      let min_dist = s.current_min_spawn_dist in
      let max_dist = s.current_max_spawn_dist in
      let bias = cfg.distance_bias in
      let near_max = clamp M bias.near_distance min_dist max_dist in
      let far_min = std_max M.double (clamp M bias.far_distance min_dist max_dist) near_max in
      let near_weight =
        blend_weight s.robot_speed_mps bias.near_weight_slow bias.near_weight_fast in
      let far_weight = blend_weight s.robot_speed_mps bias.far_weight_slow bias.far_weight_fast in
      if le max_dist min_dist
      then []
      else or_whole_range M min_dist max_dist (
          add_band M far_min max_dist far_weight (
            add_band M near_max far_min (decimal 1 0)
              (add_band M min_dist near_max near_weight [])))

  unfoldable pub prepare_spawn_bias : Manager M → Manager M
  prepare_spawn_bias s =
      let sectors = build_sector_bias in
      let bands = build_distance_bands s in
      record s {
        bias_cache = record {
          sectors = sectors;
          bands = bands;
          sector_dist =
              build_distribution M (map (λ sector. std_max M.double M.zero sector.weight) sectors);
          band_dist =
              build_distribution M (map (λ band. std_max M.double M.zero band.weight) bands);
        };
      }
