-- ===== src/Sim/Object/Motion.antt =====
-- `update` of `DynamicObject::Impl`, of libs/sim/src/object.cpp: following the waypoints while
-- active, braking while stopped, standing still while inactive.
use ddrl_nav2d.Prelude.{
  suc, Bool, false, not, ◌&&◌, if◌then◌else◌, List, [], ◌∷◌, Option, none, some, length, get_elem?,
  leb,
}
use ddrl_nav2d.Collision.Bounds.{Point2, std_min, std_max}
use ddrl_nav2d.Sim.Maths.{Maths, point, clamp, distance, normalize_angle}
use ddrl_nav2d.Sim.Object.{
  DynamicObjectState, FollowCfg, Object, cruise, no_twist, sample_new_target_speed,
  schedule_next_random_stop,
}

module _ (M : Maths) where
  open M use {Real, lt, le, add, sub, mul, div, decimal, neg}

  -- Along the heading with the current speed.
  unfoldable pub head_along : Object M → Real → Object M
  head_along o turn = record o {
    current_vel = record {
      linear =
          point M (mul o.current_speed (M.cos o.current_pose.yaw))
            (mul o.current_speed (M.sin o.current_pose.yaw));
      angular = turn;
    };
  }

  unfoldable pub integrate_motion : Real → Object M → Object M
  integrate_motion dt o = record o {
    current_pose = record {
      pos =
          point M (add o.current_pose.pos.x (mul o.current_vel.linear.x dt))
            (add o.current_pose.pos.y (mul o.current_vel.linear.y dt));
      yaw = normalize_angle M (add o.current_pose.yaw (mul o.current_vel.angular dt));
    };
  }

  abbrev out_of_route : Object M → Bool
  out_of_route o = leb (length o.waypoints_world) o.current_waypoint_idx

  -- `clamp_heading_rate`, with `kMaxRate` 1.
  abbrev clamp_heading_rate : Real → Real
  clamp_heading_rate desired_rate = clamp M desired_rate (neg (decimal 1 0)) (decimal 1 0)

  -- The `switch` on `follow_type_`: the angular rate that turns the object by `yaw_error`.
  abbrev pub turn_rate : FollowCfg M → Real → Real → Real
  turn_rate (FollowCfg.linear_const c) speed yaw_error =
      clamp_heading_rate (mul yaw_error (decimal 2 0))
  turn_rate (FollowCfg.linear_pid c) speed yaw_error =
      clamp_heading_rate (mul yaw_error (decimal 2 0))
  turn_rate (FollowCfg.ackermann c steer base) speed yaw_error =
      let steering = clamp M yaw_error (neg steer) steer in
      let turn_radius =
        if lt (decimal 1 6) (M.fabs steering)
        then div base (M.tan steering)
        else decimal 1000000 0 in
      if lt (decimal 1 6) (M.fabs turn_radius) then div speed turn_radius else M.zero

  abbrev pub toward : Object M → Point2 M.double → Object M
  toward o wp_world =
      let target_yaw =
        M.atan2 (sub wp_world.y o.current_pose.pos.y) (sub wp_world.x o.current_pose.pos.x) in
      head_along o (
        turn_rate o.follow_cfg o.current_speed
          (normalize_angle M (sub target_yaw o.current_pose.yaw)))

  abbrev pub halt : Object M → Object M
  halt o = record o { current_vel = no_twist M; current_speed = M.zero }

  -- On the waypoint at `current_waypoint_idx_`; there is none behind the end of the route.
  abbrev pub toward_waypoint : Object M → Option (Point2 M.double) → Object M
  toward_waypoint o none = halt o
  toward_waypoint o (some wp_world) = toward o wp_world

  abbrev pub follow_route : Object M → List (Point2 M.double) → Object M
  follow_route o [] = head_along o M.zero
  follow_route o (p ∷ ps) = toward_waypoint o (get_elem? (p ∷ ps) o.current_waypoint_idx)

  unfoldable pub update_waypoint_following : Object M → Object M
  update_waypoint_following o = follow_route o o.waypoints_world

  abbrev pub within_tol : Object M → Option (Point2 M.double) → Bool
  within_tol o none = false
  within_tol o (some wp_world) = lt (distance M o.current_pose.pos wp_world) o.waypoint_reached_tol

  unfoldable pub check_waypoint_reached : Object M → Bool
  check_waypoint_reached o = within_tol o (get_elem? o.waypoints_world o.current_waypoint_idx)

  unfoldable pub advance_to_next_waypoint : Object M → Object M
  advance_to_next_waypoint o =
      let next = record o { current_waypoint_idx = suc o.current_waypoint_idx } in
      if not (out_of_route next)
      then next
      else if o.waypoints_loop
      then sample_new_target_speed M (record next { current_waypoint_idx = 0 })
      else record next { state = DynamicObjectState.inactive }

  abbrev motion_caps_max_accel : Object M → Real
  motion_caps_max_accel o = (cruise M o.follow_cfg).caps.max_accel

  abbrev motion_caps_max_decel : Object M → Real
  motion_caps_max_decel o = (cruise M o.follow_cfg).caps.max_decel

  -- Toward the target speed within the caps.
  unfoldable pub change_speed : Real → Object M → Object M
  change_speed dt o =
      if lt o.current_speed o.target_speed
      then record o {
        current_speed =
            std_min M.double o.target_speed
              (add o.current_speed (mul (motion_caps_max_accel o) dt));
      }
      else if lt o.target_speed o.current_speed
      then record o {
        current_speed =
            std_max M.double o.target_speed
              (sub o.current_speed (mul (motion_caps_max_decel o) dt));
      }
      else o

  unfoldable pub random_stop : Object M → Object M
  random_stop o = schedule_next_random_stop M (record o {
    state = DynamicObjectState.stopped;
    in_collision = false;
    stop_start_time = o.sim_time;
  })

  unfoldable pub update_motion : Real → Object M → Object M
  update_motion dt o =
      if lt M.zero o.next_random_stop_time && le o.next_random_stop_time o.sim_time
      then random_stop o
      else let moved = change_speed dt (update_waypoint_following o) in
        if check_waypoint_reached moved then advance_to_next_waypoint moved else moved

  -- Braking while stopped.
  unfoldable pub brake : Real → Object M → Object M
  brake dt o =
      let decel = std_max M.double (decimal 15 0) (motion_caps_max_decel o) in
      integrate_motion dt (
        head_along
          (record o {
            current_speed = std_max M.double M.zero (sub o.current_speed (mul decel dt));
          })
          M.zero)

  -- The end of a stop, which keeps the heading and turns no further.
  unfoldable pub resume : Object M → Object M
  resume o =
      let started = sample_new_target_speed M (record o {
        state = DynamicObjectState.active;
        in_collision = false;
        stop_start_time = neg (decimal 1 0);
        current_waypoint_idx = if out_of_route o then 0 else o.current_waypoint_idx;
      }) in
      head_along started started.current_vel.angular

  abbrev pub dwell_over : Object M → Bool
  dwell_over o =
      le M.zero o.stop_start_time
      && le (if o.in_collision then o.stop_dwell_collision else o.stop_dwell_random)
          (sub o.sim_time o.stop_start_time)

  abbrev pub update_stopped : Real → Object M → Object M
  update_stopped dt o =
      let braked = brake dt o in if dwell_over braked then resume braked else braked

  abbrev pub update_in : DynamicObjectState → Real → Object M → Object M
  update_in DynamicObjectState.inactive dt o = halt o
  update_in DynamicObjectState.stopped dt o = update_stopped dt o
  update_in DynamicObjectState.active dt o = integrate_motion dt (update_motion dt o)

  unfoldable pub update : Real → Object M → Object M
  update dt o = update_in o.state dt (record o { sim_time = add o.sim_time dt })
