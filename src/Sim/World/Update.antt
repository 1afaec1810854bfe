-- ===== src/Sim/World/Update.antt =====
-- `update` of `World::Impl` of libs/sim/src/world.cpp, with the calls between two updates. The robot
-- and the broad phase are fields of `Surroundings`; an error of the robot is `false`. The broad phase
-- and the spawn manager are there, as the constructor makes them.
pub mod Keeps
use ddrl_nav2d.Prelude.{ℕ, Bool, true, false, List, [], ◌∷◌, map, Option, none, some}
use ddrl_nav2d.Collision.Bounds.{Aabb2, Point2, merge}
use ddrl_nav2d.Sim.Maths.{Maths, Pose2, Twist2}
use ddrl_nav2d.Sim.Object.{Object}
use ddrl_nav2d.Sim.Object.Motion
use ddrl_nav2d.Sim.Spawn.{Settings, MapConfig, Manager}
use ddrl_nav2d.Sim.Spawn.Update
use ddrl_nav2d.Sim.World.Route.{ActiveRoute, RouteTelemetry, route_telemetry}
use ddrl_nav2d.Sim.World.Entities.{Registry, refresh}
use ddrl_nav2d.Sim.World.Severity.{
  ModelPart, CollisionContact, CollisionSeverity, compose, compute_collision_severity,
}
use ddrl_nav2d.Sim.World.Collide.{
  SceneInstance, Tally, Scenery, resolve_robot, resolve_dynamic_object_collisions,
}

pub record Surroundings (M : Maths) (Name : Type 0) : Type 1 where
  pub Robot : Type 0
  pub Trees : Type 0
  pub Action : Type 0
  pub infinity : M.Real
  pub get_pose : Robot → Pose2 M
  pub get_velocity : Robot → Twist2 M
  pub update_robot : M.Real → Robot → Bool × Robot
  pub set_action : Action → Robot → Bool × Robot
  pub notify_collision : List (CollisionContact M Name) → M.Real → Robot → Bool × Robot
  pub clear_collision_state : Robot → Robot
  pub part_bounds : ModelPart M → Pose2 M → Aabb2 M.double
  pub update_dynamics : ℕ → Pose2 M → Trees → Trees
  pub refit_dynamics : Trees → Trees
  pub query_entity_ids : Trees → Aabb2 M.double → Bool → Bool → List ℕ
  pub static_instances : Trees → List (SceneInstance M)
  pub dynamic_instances : Trees → List (SceneInstance M)

module _ (M : Maths) (Name : Type 0) where
  pub record CollisionReport : Type 0 where
    pub timestamp : M.Real
    pub severity : CollisionSeverity M
    pub contacts : List (CollisionContact M Name)

module _ (M : Maths) {Name : Type 0} (E : Surroundings M Name) where
  pub record World : Type 0 where
    pub sim_time : M.Real
    pub last_update_dt : M.Real
    pub snapshot_dirty : Bool
    pub spawn_manager : Manager M
    pub robot : E.Robot
    pub trees : E.Trees
    pub scenery : Scenery M Name
    pub pending_collision_report : Option (CollisionReport M Name)
    pub route : ActiveRoute M

module _ (M : Maths) {Name : Type 0} (E : Surroundings M Name) where
  abbrev merge_parts : Pose2 M → Aabb2 M.double → List (ModelPart M) → Aabb2 M.double
  merge_parts pose box [] = box
  merge_parts pose box (p ∷ ps) = merge_parts pose (merge M.double box (E.part_bounds p pose)) ps

  abbrev pub model_bounds : List (ModelPart M) → Pose2 M → Aabb2 M.double
  model_bounds [] world_pose = record { min = world_pose.pos; max = world_pose.pos }
  model_bounds (p ∷ ps) world_pose = merge_parts world_pose (E.part_bounds p world_pose) ps

  abbrev with_objects : List (Object M) → World M E → World M E
  with_objects objects w = record w { spawn_manager = record w.spawn_manager { objects = objects } }

  abbrev move_dynamics : List ℕ → List (Object M) → E.Trees → E.Trees
  move_dynamics [] os t = t
  move_dynamics (i ∷ is) [] t = t
  move_dynamics (i ∷ is) (o ∷ os) t = move_dynamics is os (E.update_dynamics i o.current_pose t)

  unfoldable pub update_scene_trees : World M E → World M E
  update_scene_trees w =
      let moved = move_dynamics w.scenery.object_ids w.spawn_manager.objects w.trees in
      record w {
        trees =
            E.refit_dynamics
              (E.update_dynamics w.scenery.robot_entity_id (E.get_pose w.robot) moved);
      }

  abbrev pub notified : Bool × E.Robot → Tally M Name → World M E → Bool × World M E
  notified (false, robot) t w = (false, record (with_objects t.objects w) { robot = robot })
  notified (true, robot) t w = (
    true,
    record (with_objects t.objects w) {
      robot = robot;
      pending_collision_report = some (record {
        timestamp = w.sim_time;
        severity =
            compute_collision_severity M t.contacts t.collision_results (E.get_velocity robot)
              (E.get_pose w.robot);
        contacts = t.contacts;
      });
    },
  )

  abbrev pub report_of :
      List (CollisionContact M Name) → Tally M Name → World M E → Bool × World M E
  report_of [] t w = (
    true,
    record (with_objects t.objects w) {
      robot = E.clear_collision_state w.robot;
      pending_collision_report = none;
    },
  )
  report_of (c ∷ cs) t w = notified (E.notify_collision t.contacts w.sim_time w.robot) t w

  abbrev pub resolve_robot_collisions : World M E → Bool × World M E
  resolve_robot_collisions w =
      let pose = E.get_pose w.robot in
      let candidates =
        E.query_entity_ids w.trees (model_bounds w.scenery.robot_model pose) true true in
      let t =
        resolve_robot M E.infinity w.scenery pose candidates
          (record { objects = w.spawn_manager.objects; contacts = []; collision_results = [] }) in
      report_of t.contacts t w

  abbrev pub after_robot : Bool × World M E → Bool × World M E
  after_robot (false, w) = (false, w)
  after_robot (true, w) = (
    true,
    with_objects
        (resolve_dynamic_object_collisions M E.infinity w.scenery (E.query_entity_ids w.trees)
          w.spawn_manager.objects)
        w,
  )

  abbrev id_of : SceneInstance M → ℕ
  id_of i = i.entity_id

  unfoldable pub run_collisions_detection : World M E → Bool × World M E
  run_collisions_detection w = after_robot (
      resolve_robot_collisions (record w {
        scenery = record w.scenery {
          registry =
              refresh id_of (E.static_instances w.trees) (E.dynamic_instances w.trees)
                w.scenery.registry;
        };
      }))

  abbrev pub after_collisions : Bool × World M E → Bool × World M E
  after_collisions (false, w) = (false, w)
  after_collisions (true, w) = (true, record w { snapshot_dirty = true })

  abbrev pub with_robot : Bool × E.Robot → World M E → Bool × World M E
  with_robot (false, robot) w = (false, record w { robot = robot })
  with_robot (true, robot) w =
      after_collisions (run_collisions_detection (update_scene_trees (record w { robot = robot })))

  module _ (cfg : Settings M) (area : MapConfig M) where
    -- The first lines: the time, the spawn manager and the objects.
    unfoldable pub update_objects : M.Real → World M E → World M E
    update_objects dt w =
        let spawned = Update.update M cfg area dt (E.get_pose w.robot) w.spawn_manager in
        record w {
          sim_time = M.add w.sim_time dt;
          last_update_dt = dt;
          spawn_manager = record spawned { objects = map (Motion.update M dt) spawned.objects };
        }

    unfoldable pub update_world : M.Real → World M E → Bool × World M E
    update_world dt w = let t = update_objects dt w in with_robot (E.update_robot dt t.robot) t

  unfoldable pub consume_report : World M E → Option (CollisionReport M Name) × World M E
  consume_report w = (w.pending_collision_report, record w { pending_collision_report = none })

  abbrev told :
      Option (RouteTelemetry M × ActiveRoute M) → World M E → Option (RouteTelemetry M) × World M E
  told none w = (none, w)
  told (some (telemetry, route)) w = (some telemetry, record w { route = route })

  -- The route's part of `reward_telemetry`.
  unfoldable pub tell_route : World M E → Option (RouteTelemetry M) × World M E
  tell_route w = told (route_telemetry M (E.get_pose w.robot).pos w.route) w

  abbrev acted : Bool × E.Robot → World M E → Bool × World M E
  acted (ok, robot) w = (ok, record w { robot = robot })

  unfoldable pub act : E.Action → World M E → Bool × World M E
  act action w = acted (E.set_action action w.robot) w
