-- ===== src/Sim/Spawn/Seen.antt =====
-- What the loop of `check_and_despawn_objects` of libs/sim/src/spawn_manager.cpp does to an object in
-- sight of the robot.
use ddrl_nav2d.Prelude.{ℕ, ◌≡◌, ◌&&◌, refl, Bool, true, false, List, Option, none, some}
use ddrl_nav2d.Collision.Bounds.{Point2, std_max}
use ddrl_nav2d.Sim.Maths.{Maths, Pose2, distance}
use ddrl_nav2d.Sim.Object.{Object, is_stuck}
use ddrl_nav2d.Sim.Spawn.{DespawnReason, Settings, MapConfig, Manager}
use ddrl_nav2d.Sim.Spawn.Geometry.{is_visible_to_robot}
use ddrl_nav2d.Sim.Spawn.Despawn.{handle_stuck, check_stuck, sort_out, check_object}

and_false : (b : Bool) → (b && false) ≡ false
and_false true = refl
and_false false = refl

module _ (M : Maths) (cfg : Settings M) (world : MapConfig M) where
  handle_stuck-seen :
      (try_reroute : Bool) (wps : Option (Point2 M.double × Point2 M.double)) (x : ℕ)
      (scan : Manager M × List (ℕ × DespawnReason))
      → (handle_stuck M cfg world try_reroute wps false false x scan).1 ≡ scan.1
  unfolding handle_stuck
  handle_stuck-seen true none x scan = refl
  handle_stuck-seen true (some wps) x scan = refl
  handle_stuck-seen false wps x scan = refl

  sort_out-still :
      (still : Bool) (x : ℕ) (when_stuck scan : Manager M × List (ℕ × DespawnReason))
      → when_stuck.1 ≡ scan.1
      → (sort_out M false false still x when_stuck scan).1 ≡ scan.1
  unfolding sort_out
  sort_out-still true x when_stuck scan h = h
  sort_out-still false x when_stuck scan h = refl

  module _ (robot_pose : Pose2 M) (x : ℕ) (obj : Object M) (s : Manager M)
      (found : List (ℕ × DespawnReason))
      (seen : is_visible_to_robot M cfg world s.objects s.active_objects robot_pose obj.current_pose
        ≡ true)
      (near : M.lt
          (std_max M.double (M.decimal 1 0) cfg.max_sensor_range)
          (distance M obj.current_pose.pos robot_pose.pos)
        ≡ false) where
    check_stuck-seen : (check_stuck M cfg world robot_pose x obj (s, found)).1 ≡ found
    unfolding check_stuck
    check_stuck-seen = rw (seen, near, and_false _) (handle_stuck-seen _ _ x _)

    -- An object in sight of the robot and within the range of its sensors is never set aside to be
    -- despawned, whatever its state.
    pub check_object-seen : (check_object M cfg world robot_pose x (some obj) (s, found)).1 ≡ found
    unfolding check_object
    check_object-seen =
        rw (seen, and_false _, and_false _)
          (sort_out-still (is_stuck M obj) x (check_stuck M cfg world robot_pose x obj (s, found))
            (s, found) check_stuck-seen)
