-- ===== src/Sim/World/Route.antt =====
-- The active route of `World::Impl` of libs/sim/src/world.cpp: `select_route`, `current_waypoint`,
-- `is_current_waypoint_reached`, `populate_route_observation` and the route's part of
-- `reward_telemetry`. An exception is `none`; names of routes and waypoints are left out.
pub mod Order
use ddrl_nav2d.Prelude.{
  ℕ, zero, suc, ◌+◌, ◌-◌, ◌%◌, ◌^◌, min, Bool, true, false, not, ◌&&◌, ◌||◌, if◌then◌else◌, List,
  [], ◌∷◌, Option, none, some, length, get_elem?, ltb, leb,
}
use ddrl_nav2d.Collision.Bounds.{Point2}
use ddrl_nav2d.Sim.Maths.{Maths, Pose2, distance}

module _ (M : Maths) where
  pub record ActiveWaypoint : Type 0 where
    pub pos : Point2 M.double
    pub tolerance : M.Real

module _ (M : Maths) where
  -- A robot route of the map.
  pub record RobotRoute : Type 0 where
    pub start : Pose2 M
    pub waypoints : List (ActiveWaypoint M)

  pub record ActiveRoute : Type 0 where
    pub active_route_start_pose : Pose2 M
    pub active_route : List (ActiveWaypoint M)
    pub active_waypoint_index : ℕ
    pub final_goal_reached : Bool

  -- The route's fields of `RewardTelemetry` and of an observation.
  pub record RouteTelemetry : Type 0 where
    pub waypoint_position : Point2 M.double
    pub distance_to_waypoint : M.Real
    pub heading_to_waypoint : M.Real
    pub waypoint_index : ℕ
    pub waypoint_count : ℕ
    pub waypoint_reached : Bool
    pub final_goal_reached : Bool

module _ (M : Maths) where
  open M use {le, sub, neg, pi}

  -- What `select_route` makes of the route that it chose.
  abbrev pub follow : Bool → M.Engine → Option (RobotRoute M) → Option (ActiveRoute M × M.Engine)
  follow randomize rng none = none
  follow randomize rng (some route) =
      let drawn = M.uniform_real (neg pi) pi rng in
      let start : Pose2 M =
        if randomize then record route.start { yaw = drawn.0 } else route.start in
      elim route.waypoints [
        | [] ↦ none
        | w ∷ ws ↦ some (
          record {
            active_route_start_pose = start;
            active_route = w ∷ ws;
            active_waypoint_index = 0;
            final_goal_reached = false;
          },
          if randomize then drawn.1 else rng,
        )
      ]

  -- `uniform_int` draws from zero to its bound.
  unfoldable pub select_route :
      (ℕ → M.Engine → ℕ × M.Engine)
      → Bool
      → List (RobotRoute M)
      → M.Engine
      → Option (ActiveRoute M × M.Engine)
  select_route uniform_int randomize routes rng =
      let drawn = uniform_int (length routes - 1) rng in
      if randomize && ltb 1 (length routes)
      then follow randomize drawn.1 (get_elem? routes drawn.0)
      else follow randomize rng (get_elem? routes 0)

  unfoldable pub current_waypoint : ActiveRoute M → Option (ActiveWaypoint M)
  current_waypoint r =
      get_elem? r.active_route (min r.active_waypoint_index (length r.active_route - 1))

  abbrev pub within : ActiveWaypoint M → Point2 M.double → Bool
  within w p = le (distance M p w.pos) w.tolerance

  -- The end of `reward_telemetry`: the telemetry's two flags and the route.
  unfoldable pub progress :
      ActiveWaypoint M → Point2 M.double → ActiveRoute M → (Bool × Bool) × ActiveRoute M
  progress w p r =
      if r.final_goal_reached || not (within w p)
      then ((false, r.final_goal_reached), r)
      else if leb (length r.active_route) (suc r.active_waypoint_index)
      then ((true, true), record r { final_goal_reached = true })
      else ((true, false), record r { active_waypoint_index = suc r.active_waypoint_index })

  abbrev pub telemetry_at :
      Point2 M.double → ActiveWaypoint M → ActiveRoute M → RouteTelemetry M × ActiveRoute M
  telemetry_at p w r =
      let moved = progress w p r in
      (
        record {
          waypoint_position = w.pos;
          distance_to_waypoint = distance M p w.pos;
          heading_to_waypoint = M.atan2 (sub w.pos.y p.y) (sub w.pos.x p.x);
          waypoint_index = r.active_waypoint_index % 2 ^ 32;
          waypoint_count = length r.active_route % 2 ^ 32;
          waypoint_reached = moved.0.0;
          final_goal_reached = moved.0.1;
        },
        moved.1,
      )

  abbrev pub telemetry_of :
      Option (ActiveWaypoint M)
      → Point2 M.double
      → ActiveRoute M
      → Option (RouteTelemetry M × ActiveRoute M)
  telemetry_of none p r = none
  telemetry_of (some w) p r = some (telemetry_at p w r)

  -- On the robot's position.
  unfoldable pub route_telemetry :
      Point2 M.double → ActiveRoute M → Option (RouteTelemetry M × ActiveRoute M)
  route_telemetry p r = telemetry_of (current_waypoint r) p r

  abbrev pub observed_at :
      Option (ActiveWaypoint M) → Point2 M.double → ActiveRoute M → Option (RouteTelemetry M)
  observed_at none p r = none
  observed_at (some w) p r = some (record {
    waypoint_position = w.pos;
    distance_to_waypoint = distance M p w.pos;
    heading_to_waypoint = M.atan2 (sub w.pos.y p.y) (sub w.pos.x p.x);
    waypoint_index = r.active_waypoint_index % 2 ^ 32;
    waypoint_count = length r.active_route % 2 ^ 32;
    waypoint_reached = r.final_goal_reached || within w p;
    final_goal_reached = r.final_goal_reached;
  })

  -- On the estimated position.
  unfoldable pub populate_route_observation :
      Point2 M.double → ActiveRoute M → Option (RouteTelemetry M)
  populate_route_observation p r = observed_at (current_waypoint r) p r
