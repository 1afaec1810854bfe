-- ===== src/Sim/Curriculum.antt =====
-- The curriculum of `Simulator::Impl` of libs/sim/src/simulator.cpp: `record_episode_outcome`,
-- `maybe_advance_curriculum`, `current_phase`, what `reset` does of them, and `build_spawn_config`
-- with `derive_perception_from_profile`. Counters wrap around at 2 ^ 64.
pub mod Refine
pub mod Phases
use ddrl_nav2d.Prelude.{
  ℕ, zero, suc, ◌+◌, ◌%◌, ◌^◌, Bool, true, false, not, ◌&&◌, ◌||◌, if◌then◌else◌, List, [], ◌∷◌,
  ◌++◌, Option, none, some, length, get_elem?, ltb, leb, ◌==◌,
}
use ddrl_nav2d.Collision.Bounds.{std_max}
use ddrl_nav2d.Sim.Maths.{Maths, clamp}
use ddrl_nav2d.Sim.Spawn.{Settings, increment}
use ddrl_nav2d.Sim.Spawn.Queue.{is_empty}

module _ (M : Maths) where
  pub record SpawnOverrides : Type 0 where
    pub min_spawn_distance : Option M.Real
    pub max_spawn_distance : Option M.Real
    pub min_active_objects : Option ℕ
    pub max_active_objects : Option ℕ

module _ (M : Maths) where
  -- `SimConfig::CurriculumPhase`, without its name; the names of maps are numbers.
  pub record CurriculumPhase : Type 0 where
    pub maps : List ℕ
    pub promote_on_success_rate : Option M.Real
    pub success_rate_window : ℕ
    pub spawn : SpawnOverrides M

module _ (M : Maths) where
  pub record Curriculum : Type 0 where
    pub enabled : Bool
    pub phases : List (CurriculumPhase M)

-- What `Simulator::Impl` keeps of its curriculum.
pub record Progress : Type 0 where
  pub current_phase_idx : ℕ
  pub episodes_in_phase : ℕ
  pub successes_in_phase : ℕ
  pub success_window : List Bool

abbrev pub no_progress : Progress
no_progress = record {
  current_phase_idx = 0;
  episodes_in_phase = 0;
  successes_in_phase = 0;
  success_window = [];
}

-- The loop over `pop_front`.
abbrev pub trim : ℕ → List Bool → List Bool
trim window [] = []
trim window (b ∷ bs) =
    let rest = trim window bs in if ltb window (length (b ∷ bs)) then rest else b ∷ bs

-- `std::count` of true
abbrev pub wins : List Bool → ℕ
wins [] = 0
wins (true ∷ bs) = suc (wins bs)
wins (false ∷ bs) = wins bs

module _ (M : Maths) (curr : Curriculum M) where
  abbrev pub phase_at : ℕ → Option (CurriculumPhase M)
  phase_at idx =
      if (not curr.enabled || is_empty curr.phases) || leb (length curr.phases) idx
      then none
      else get_elem? curr.phases idx

  abbrev pub current_phase : Progress → Option (CurriculumPhase M)
  current_phase s = phase_at s.current_phase_idx

  abbrev pub window_of : Option (CurriculumPhase M) → ℕ
  window_of none = 0
  window_of (some phase) = phase.success_rate_window

  abbrev pub keep_window : ℕ → List Bool → List Bool
  keep_window window bs = if ltb 0 window then trim window bs else []

  unfoldable pub record_episode_outcome : Bool → Progress → Progress
  record_episode_outcome success s = record s {
    episodes_in_phase = increment s.episodes_in_phase;
    successes_in_phase = if success then increment s.successes_in_phase else s.successes_in_phase;
    success_window = keep_window (window_of (current_phase s)) (s.success_window ++ (success ∷ []));
  }

  abbrev pub reaches : Option M.Real → List Bool → Bool
  reaches none bs = false
  reaches (some rate) bs = M.le rate (M.div (M.decimal (wins bs) 0) (M.decimal (length bs) 0))

  -- The condition on the phase that the window of outcomes promotes.
  abbrev pub promotes : Option (CurriculumPhase M) → List Bool → Bool
  promotes none bs = false
  promotes (some phase) bs =
      (ltb 0 phase.success_rate_window && leb phase.success_rate_window (length bs))
      && reaches phase.promote_on_success_rate bs

  abbrev pub is_last : ℕ → Bool
  is_last idx = leb (length curr.phases) (suc idx)

  unfoldable pub maybe_advance_curriculum : Progress → Progress
  maybe_advance_curriculum s =
      if not curr.enabled || is_empty curr.phases
      then s
      else if is_last s.current_phase_idx
      then s
      else if promotes (get_elem? curr.phases s.current_phase_idx) s.success_window
      then record {
        current_phase_idx = suc s.current_phase_idx;
        episodes_in_phase = 0;
        successes_in_phase = 0;
        success_window = [];
      }
      else s

  -- What `reset` does after an episode that ended.
  abbrev pub end_episode : Bool → Progress → Progress
  end_episode success s = maybe_advance_curriculum (record_episode_outcome success s)

  abbrev pub end_episodes : List Bool → Progress → Progress
  end_episodes [] s = s
  end_episodes (b ∷ bs) s = end_episodes bs (end_episode b s)

module _ (M : Maths) where
  open M use {Real, lt, mul, div, decimal}

  -- The alternatives of a sensor's configuration, with what is read of them.
  pub data Sensor : Type 0 where
    lidar3d : (max_range hfov : Real) → Sensor
    lidar2d : (max_range fov : Real) → Sensor
    depth_camera : (max_range fx width : Real) → Sensor

module _ (M : Maths) where
  open M use {Real, lt, mul, div, decimal}

  -- The greatest range and field of view so far.
  abbrev pub widen : Sensor M → Real × Real → Real × Real
  widen (Sensor.lidar3d max_range hfov) (range, fov) =
      (std_max M.double range max_range, std_max M.double fov hfov)
  widen (Sensor.lidar2d max_range hfov) (range, fov) =
      (std_max M.double range max_range, std_max M.double fov hfov)
  widen (Sensor.depth_camera max_range fx width) (range, fov) = (
    std_max M.double range max_range,
    if lt (decimal 1 6) fx
        then std_max M.double fov (mul (decimal 2 0) (M.atan (div width (mul (decimal 2 0) fx))))
        else fov,
  )

  abbrev widest : List (Sensor M) → Real × Real → Real × Real
  widest [] found = found
  widest (sensor ∷ sensors) found = widest sensors (widen sensor found)

  abbrev set_range : Real → Settings M → Settings M
  set_range range cfg =
      if lt (decimal 1 3) range
      then record cfg { fov_distance = range; max_sensor_range = range }
      else cfg

  abbrev set_fov : Real → Settings M → Settings M
  set_fov hfov cfg =
      if lt (decimal 1 3) hfov
      then record cfg {
        fov_angle_deg = clamp M (div (mul hfov (decimal 180 0)) M.pi) M.zero (decimal 360 0);
      }
      else cfg

  unfoldable pub derive_perception_from_profile : List (Sensor M) → Settings M → Settings M
  derive_perception_from_profile sensors cfg =
      let found = widest sensors (M.zero, M.zero) in set_fov found.1 (set_range found.0 cfg)

  abbrev value_or {ℓ} : {A : Type ℓ} → A → Option A → A
  value_or a none = a
  value_or a (some b) = b

  abbrev pub override : Option (CurriculumPhase M) → Settings M → Settings M
  override none cfg = cfg
  override (some phase) cfg = record cfg {
    min_spawn_distance = value_or cfg.min_spawn_distance phase.spawn.min_spawn_distance;
    max_spawn_distance = value_or cfg.max_spawn_distance phase.spawn.max_spawn_distance;
    min_active_objects = value_or cfg.min_active_objects phase.spawn.min_active_objects;
    max_active_objects = value_or cfg.max_active_objects phase.spawn.max_active_objects;
  }

  -- The sensors of the robot's profile, if it is found.
  abbrev perceive : Option (List (Sensor M)) → Settings M → Settings M
  perceive none cfg = cfg
  perceive (some sensors) cfg = derive_perception_from_profile sensors cfg

  pub build_spawn_config :
      Settings M → Option (List (Sensor M)) → Option (CurriculumPhase M) → Settings M
  build_spawn_config base sensors phase = override phase (perceive sensors base)
