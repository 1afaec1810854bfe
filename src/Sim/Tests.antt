-- ===== src/Sim/Tests.antt =====
-- A world of two objects for libs/sim, over natural numbers in place of `double`: the distributions
-- draw the lower bound, and the sine is zero.
use ddrl_nav2d.Prelude.{
  ℕ, suc, Bool, none, ◌+◌, ◌-◌, ◌*◌, ◌/◌, ◌^◌, ◌<◌, refl, true, false, List, [], ◌∷◌, some, length,
  ltb, leb, arith,
}
use ddrl_nav2d.Collision.Bounds.{Double, Point2, std_min}
use ddrl_nav2d.Sim.Maths.{
  Maths, Pose2, distance, normalize_angle, turn_down, turn_up, transform_point,
}
use ddrl_nav2d.Sim.Object.{
  FollowCfg, DynamicProfile, Object, is_active, new_object, sample_new_target_speed,
  schedule_next_random_stop, activate,
}
use ddrl_nav2d.Sim.Object.Motion.{
  update, update_motion, random_stop, update_waypoint_following, head_along, integrate_motion,
  check_waypoint_reached, advance_to_next_waypoint, change_speed,
}
use ddrl_nav2d.Sim.Object.Waypoints.{Call, calls, waypoint_in_range}
use ddrl_nav2d.Sim.Spawn.{Settings, MapConfig, Manager}
use ddrl_nav2d.Sim.Spawn.Bias.{prepare_spawn_bias}
use ddrl_nav2d.Sim.Spawn.Queue.{Frame, Limits}
use ddrl_nav2d.Sim.Spawn.Update.{make_manager}
use ddrl_nav2d.Sim.Spawn.Keeps.{IsConsistent}
use ddrl_nav2d.Sim.Curriculum.{
  SpawnOverrides, CurriculumPhase, Curriculum, no_progress, end_episodes,
}
use ddrl_nav2d.Sim.Curriculum.Refine.{Abstracts, accounts, curriculum-Abstracts}
use ddrl_nav2d.Sim.Spawn.Runs.{Event, run, run-IsConsistent}

abbrev pub naturals : Double
naturals = record {
  Real = ℕ;
  lt = ltb;
  le = leb;
  add = ◌+◌;
  sub = ◌-◌;
  mul = ◌*◌;
  zero = 0;
  half = 1;
}

abbrev pub maths : Maths
maths = record {
  double = naturals;
  div = λ a b. a / suc b;
  pow = ◌^◌;
  neg = λ a. 0;
  fabs = λ a. a;
  sqrt = λ a. a;
  cos = λ a. 1;
  sin = λ a. 0;
  tan = λ a. a;
  atan = λ a. a;
  hypot = ◌+◌;
  atan2 = λ a b. a;
  pi = 3;
  decimal = λ m k. m / 10 ^ k;
  turns = 2;
  Engine = ℕ;
  engine = λ seed. seed;
  uniform_real = λ lo hi rng. (lo, suc rng);
  exponential = λ rate rng. (100, suc rng);
  discrete = λ weights rng. (0, suc rng);
}

abbrev pub at_point : ℕ → ℕ → Point2 naturals
at_point a b = record { x = a; y = b }

abbrev pub pose_at : ℕ → ℕ → Pose2 maths
pose_at a b = record { pos = at_point a b; yaw = 0 }

abbrev profile : DynamicProfile maths
profile = record {
  follow_cfg =
      FollowCfg.linear_const
        (record { speed_min = 1; speed_max = 2; caps = record { max_accel = 1; max_decel = 1 } });
  points = at_point 5 5 ∷ (at_point 9 5 ∷ []);
  reached_pos_tol = 1;
  loop = true;
}

abbrev pub settings : Settings maths
settings = record {
  min_spawn_distance = 30;
  max_spawn_distance = 60;
  min_inter_object_distance = 8;
  fov_angle_deg = 120;
  fov_distance = 60;
  max_sensor_range = 80;
  max_despawn_distance = 80;
  stuck_timeout = 5;
  avoid_fov = false;
  angular_bias = record {
    front_angle_deg = 120;
    flank_angle_deg = 60;
    rear_angle_deg = 120;
    front_weight = 3;
    flank_weight = 1;
    rear_weight = 1;
  };
  distance_bias = record {
    near_distance = 25;
    far_distance = 55;
    near_weight_slow = 1;
    near_weight_fast = 1;
    far_weight_slow = 1;
    far_weight_fast = 1;
    slow_speed_mps = 2;
    fast_speed_mps = 10;
  };
  occlusion = record {
    allow_in_fov = false;
    static_blocker_radius = 3;
    dynamic_blocker_radius = 2;
  };
  respect_map_geometry = true;
  max_spawns_per_frame = 3;
  max_spawn_attempts_per_frame = 10;
  min_active_objects = 1;
  max_active_objects = 2;
  max_position_samples = 3;
}

abbrev pub world : MapConfig maths
world = record {
  static_instances = at_point 500 500 ∷ [];
  bounds = record { min = at_point 0 0; max = at_point 1000 1000 };
}

abbrev object_at : ℕ → Object maths
object_at i = new_object maths i (pose_at 0 0) profile

abbrev pub objects : List (Object maths)
objects = object_at 1 ∷ (object_at 2 ∷ [])

abbrev pub manager : Manager maths
manager = make_manager maths settings world objects 7

abbrev ready_manager : Manager maths
ready_manager = prepare_spawn_bias maths settings manager

abbrev route_calls : List (Call maths)
route_calls = Call.activated ∷ (Call.updated 1 ∷ (Call.updated 1 ∷ []))

abbrev events : List (Event maths)
events =
    Event.updated 1 (pose_at 100 100)
    ∷ (Event.object_updated 0 1
        ∷ (Event.object_collided 1 ∷ (Event.updated 1 (pose_at 400 400) ∷ [])))

run-IsConsistent_example :
    IsConsistent maths settings world (run maths settings world events manager)
run-IsConsistent_example =
    run-IsConsistent maths settings world objects 7 events
      (unfold new_object sample_new_target_speed schedule_next_random_stop in (refl, (refl, tt)))

abbrev limits : Limits
limits = record { max_spawns = 3; max_attempts = 10 }

abbrev frame : Frame maths
frame = record { manager = ready_manager; spawns = 0; attempts = 0 }

abbrev seen_object : Object maths
seen_object = activate maths (object_at 1)

waypoint_in_range_example :
    (calls maths route_calls (object_at 1)).current_waypoint_idx
    < length (calls maths route_calls (object_at 1)).waypoints_world
waypoint_in_range_example =
    waypoint_in_range maths 1 (pose_at 0 0) profile route_calls
      (unfold update new_object sample_new_target_speed schedule_next_random_stop activate is_active
          update_motion random_stop update_waypoint_following head_along integrate_motion
          check_waypoint_reached advance_to_next_waypoint change_speed distance normalize_angle
          turn_down turn_up std_min transform_point in
        refl)
      (unfold update new_object sample_new_target_speed schedule_next_random_stop activate is_active
          update_motion random_stop update_waypoint_following head_along integrate_motion
          check_waypoint_reached advance_to_next_waypoint change_speed distance normalize_angle
          turn_down turn_up std_min transform_point in
        omega arith)

abbrev no_overrides : SpawnOverrides maths
no_overrides = record {
  min_spawn_distance = none;
  max_spawn_distance = none;
  min_active_objects = none;
  max_active_objects = none;
}

abbrev short_phase : CurriculumPhase maths
short_phase = record {
  promote_on_success_rate = some 0;
  maps = 8 ∷ [];
  success_rate_window = 2;
  spawn = no_overrides;
}

abbrev pub curriculum : Curriculum maths
curriculum = record { enabled = true; phases = short_phase ∷ (short_phase ∷ []) }

abbrev outcomes : List Bool
outcomes = true ∷ (false ∷ (true ∷ []))

curriculum-Abstracts_example :
    Abstracts maths curriculum
      (end_episodes maths curriculum outcomes no_progress)
      (accounts maths curriculum outcomes (record { phase = 0; since = [] }))
curriculum-Abstracts_example = curriculum-Abstracts maths curriculum outcomes
