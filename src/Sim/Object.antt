-- ===== src/Sim/Object.antt =====
-- `DynamicObject::Impl` of libs/sim/src/object.cpp: a moving obstacle that follows waypoints.
-- `update` always returns success, so it is a function on the object. The profile's pointers to the
-- configuration are the constructors of `FollowCfg` with the fields that the class reads; the random
-- engine and the arithmetic are the parameter `Maths`.
pub mod Motion
pub mod Waypoints
use ddrl_nav2d.Prelude.{
  ℕ, suc, Bool, true, false, not, ◌&&◌, ◌||◌, if◌then◌else◌, List, [], ◌∷◌, map, Option, none, some,
  length, get_elem?, leb,
}
use ddrl_nav2d.Collision.Bounds.{Point2, std_min, std_max}
use ddrl_nav2d.Sim.Maths.{
  Maths, Pose2, Twist2, point, clamp, distance, normalize_angle, transform_point,
}

pub data DynamicObjectState : Type 0 where
  active : DynamicObjectState
  stopped : DynamicObjectState
  inactive : DynamicObjectState

module _ (M : Maths) where
  pub record MotionCaps : Type 0 where
    pub max_accel : M.Real
    pub max_decel : M.Real

  pub record Cruise : Type 0 where
    pub speed_min : M.Real
    pub speed_max : M.Real
    pub caps : MotionCaps

  -- `config::FollowCfg`, which sets `follow_type_` and the pointers to its alternatives.
  pub data FollowCfg : Type 0 where
    linear_const : Cruise → FollowCfg
    linear_pid : Cruise → FollowCfg
    ackermann : Cruise → (max_steer_angle wheel_base : M.Real) → FollowCfg

module _ (M : Maths) where
  pub record DynamicProfile : Type 0 where
    pub follow_cfg : FollowCfg M
    pub points : List (Point2 M.double)
    pub reached_pos_tol : M.Real
    pub loop : Bool

module _ (M : Maths) where
  pub record Object : Type 0 where
    pub follow_cfg : FollowCfg M
    pub state : DynamicObjectState
    pub current_pose : Pose2 M
    pub current_vel : Twist2 M
    pub sim_time : M.Real
    pub stop_start_time : M.Real
    pub current_waypoint_idx : ℕ
    pub current_speed : M.Real
    pub target_speed : M.Real
    pub waypoints_world : List (Point2 M.double)
    pub waypoint_reached_tol : M.Real
    pub waypoints_loop : Bool
    pub in_collision : Bool
    pub collision_start_time : M.Real
    pub stop_dwell_random : M.Real
    pub stop_dwell_collision : M.Real
    pub rng : M.Engine
    pub next_random_stop_time : M.Real

module _ (M : Maths) where
  open M use {Real, lt, le, add, sub, mul, div, decimal, neg}

  unfoldable pub is_active : Object M → Bool
  is_active o = elim o.state [
    | DynamicObjectState.active ↦ true
    | DynamicObjectState.stopped ↦ true
    | DynamicObjectState.inactive ↦ false
  ]

  unfoldable pub is_stuck : Object M → Bool
  is_stuck o = elim o.state [
    | DynamicObjectState.active ↦ false
    | DynamicObjectState.stopped ↦ true
    | DynamicObjectState.inactive ↦ false
  ]

  -- What every alternative of the configuration has: its range of speeds and its caps.
  abbrev pub cruise : FollowCfg M → Cruise M
  cruise (FollowCfg.linear_const c) = c
  cruise (FollowCfg.linear_pid c) = c
  cruise (FollowCfg.ackermann c steer base) = c

  unfoldable pub sample_new_target_speed : Object M → Object M
  sample_new_target_speed o =
      let c = cruise o.follow_cfg in
      let drawn = M.uniform_real c.speed_min c.speed_max o.rng in
      record o { target_speed = drawn.0; rng = drawn.1 }

  unfoldable pub schedule_next_random_stop : Object M → Object M
  schedule_next_random_stop o =
      let drawn = M.exponential (decimal 5 2) o.rng in
      record o { next_random_stop_time = add o.sim_time drawn.0; rng = drawn.1 }

  abbrev pub no_twist : Twist2 M
  no_twist = record { linear = point M M.zero M.zero; angular = M.zero }

  abbrev pub resample : Object M → Object M
  resample o = schedule_next_random_stop (sample_new_target_speed o)

  -- The constructor, whose profile's points are in the frame of the object's pose.
  unfoldable pub new_object : ℕ → Pose2 M → DynamicProfile M → Object M
  new_object object_id pose_world profile = resample (record {
    follow_cfg = profile.follow_cfg;
    state = DynamicObjectState.inactive;
    current_pose = pose_world;
    current_vel = no_twist;
    sim_time = M.zero;
    stop_start_time = neg (decimal 1 0);
    current_waypoint_idx = 0;
    current_speed = M.zero;
    target_speed = M.zero;
    waypoints_world = map (transform_point M pose_world) profile.points;
    waypoint_reached_tol = profile.reached_pos_tol;
    waypoints_loop = profile.loop;
    in_collision = false;
    collision_start_time = M.zero;
    stop_dwell_random = decimal 15 1;
    stop_dwell_collision = decimal 3 0;
    rng = M.engine object_id;
    next_random_stop_time = neg (decimal 1 0);
  })

  abbrev pub collide_in : DynamicObjectState → Object M → Object M
  collide_in DynamicObjectState.inactive o = o
  collide_in DynamicObjectState.stopped o = o
  collide_in DynamicObjectState.active o = record o {
    state = DynamicObjectState.stopped;
    in_collision = true;
    collision_start_time = o.sim_time;
    stop_start_time = o.sim_time;
  }

  unfoldable pub on_collision : Object M → Object M
  on_collision o = collide_in o.state o

  unfoldable pub teleport : Pose2 M → Object M → Object M
  teleport new_pose o = resample (record o {
    current_pose = new_pose;
    current_vel = no_twist;
    current_speed = M.zero;
    current_waypoint_idx = 0;
    in_collision = false;
    stop_start_time = neg (decimal 1 0);
  })

  unfoldable pub deactivate : Object M → Object M
  deactivate o = record o {
    state = DynamicObjectState.inactive;
    current_vel = no_twist;
    current_speed = M.zero;
    stop_start_time = neg (decimal 1 0);
  }

  unfoldable pub activate : Object M → Object M
  activate o = resample (record o {
    state = DynamicObjectState.active;
    current_waypoint_idx = 0;
    in_collision = false;
    stop_start_time = neg (decimal 1 0);
  })

  unfoldable pub override_waypoints : List (Point2 M.double) → Bool → Object M → Object M
  override_waypoints waypoints_world loop o = resample (record o {
    waypoints_world = waypoints_world;
    waypoints_loop = loop;
    current_waypoint_idx = 0;
    state = DynamicObjectState.active;
    stop_start_time = neg (decimal 1 0);
    in_collision = false;
    current_speed = M.zero;
  })
