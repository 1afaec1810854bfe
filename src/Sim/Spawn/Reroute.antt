-- ===== src/Sim/Spawn/Reroute.antt =====
-- `try_reroute_object` of libs/sim/src/spawn_manager.cpp: the way around the robot, on either side.
use ddrl_nav2d.Prelude.{not, ◌||◌, if◌then◌else◌, Option, none, some}
use ddrl_nav2d.Collision.Bounds.{Point2}
use ddrl_nav2d.Sim.Maths.{Maths, Pose2, point, contains}
use ddrl_nav2d.Sim.Spawn.{Settings, MapConfig, Manager}
use ddrl_nav2d.Sim.Spawn.Geometry.{check_separation, check_static_collision}

module _ (M : Maths) (cfg : Settings M) (world : MapConfig M) where
  open M use {Real, lt, le, add, sub, mul, div, decimal, neg}

  -- The two waypoints of a bypass on one side, if both are free.
  abbrev bypass :
      Manager M
      → Point2 M.double
      → Point2 M.double
      → Point2 M.double
      → Real
      → Option (Point2 M.double × Point2 M.double)
      → Option (Point2 M.double × Point2 M.double)
  bypass s pos side_dir forward_dir lateral_sign otherwise =
      let wp1 =
        point M (add pos.x (mul (mul lateral_sign side_dir.x) (decimal 25 1)))
          (add pos.y (mul (mul lateral_sign side_dir.y) (decimal 25 1))) in
      let wp2 =
        point M (add wp1.x (mul forward_dir.x (decimal 5 0)))
          (add wp1.y (mul forward_dir.y (decimal 5 0))) in
      if not (contains M world.bounds wp1) || not (contains M world.bounds wp2)
      then otherwise
      else if check_static_collision M cfg world wp1 || check_static_collision M cfg world wp2
      then otherwise
      else if not (check_separation M cfg world s.objects s.active_objects wp1)
          || not (check_separation M cfg world s.objects s.active_objects wp2)
      then otherwise
      else some (wp1, wp2)

  -- The waypoints that `try_reroute_object` gives the object, if it returns true.
  unfoldable pub reroute_waypoints :
      Manager M → Pose2 M → Pose2 M → Option (Point2 M.double × Point2 M.double)
  reroute_waypoints s obj_pose robot_pose =
      let rel_x = sub obj_pose.pos.x robot_pose.pos.x in
      let rel_y = sub obj_pose.pos.y robot_pose.pos.y in
      let rel_n = M.hypot rel_x rel_y in
      let side_n = M.hypot (neg rel_y) rel_x in
      let side_dir = point M (div (neg rel_y) side_n) (div rel_x side_n) in
      let forward_dir = point M (div rel_x rel_n) (div rel_y rel_n) in
      if lt side_n (decimal 1 4) || lt rel_n (decimal 1 4)
      then none
      else bypass s obj_pose.pos side_dir forward_dir (decimal 1 0)
          (bypass s obj_pose.pos side_dir forward_dir (neg (decimal 1 0)) none)
