-- ===== src/Sim/World/Tests.antt =====
-- A world of two objects and a wall for libs/sim/src/world.cpp.
use ddrl_nav2d.Prelude.{
  ℕ, suc, ◌+◌, ◌≡◌, ◌↔◌, refl, Bool, true, false, List, [], ◌∷◌, ◌++◌, map, none, some, range_from,
}
use ddrl_nav2d.Collision.Bounds.{Point2, Aabb2}
use ddrl_nav2d.Collision.Sat.{Shape2}
use ddrl_nav2d.Sim.Maths.{Pose2}
use ddrl_nav2d.Sim.Tests.{naturals, maths, at_point, pose_at, settings, world, objects, manager}
use ddrl_nav2d.Sim.Object.{new_object, sample_new_target_speed, schedule_next_random_stop}
use ddrl_nav2d.Sim.World.Route.{ActiveWaypoint, RobotRoute, ActiveRoute, select_route}
use ddrl_nav2d.Sim.World.Route.Order.{travel, visits, final_of, goal_in_order}
use ddrl_nav2d.Sim.World.Entities.{EntityType, EntityRef, find_entity, instance_for}
use ddrl_nav2d.Sim.World.Entities.Refine
use ddrl_nav2d.Sim.World.Entities.Refine.{calls_maps, empty_registry, empty_maps, registry_refines}
use ddrl_nav2d.Sim.World.Severity.{ModelPart}
use ddrl_nav2d.Sim.World.Collide.{
  SceneInstance, Scenery, look, resolve_robot, object_hit, static_hit, self_at,
  resolve_dynamic_object_collisions,
}
use ddrl_nav2d.Sim.World.Collide.Events.{
  collide_all, struck_all, robot_hits, contact_of, result_of_hit, robot_contacts_lem,
}
use ddrl_nav2d.Sim.World.Collide.Meets.{IsSelf, MeetsObject, MeetsStatic}
use ddrl_nav2d.Sim.World.Collide.Pairs.{pair_events, all_wall_events, dynamic_collisions_lem}
use ddrl_nav2d.Sim.World.Update.{Surroundings, World}
use ddrl_nav2d.Sim.World.Update.Keeps
use ddrl_nav2d.Sim.World.Update.Keeps.{IsSound, world-IsSound}

abbrev waypoint : ℕ → ActiveWaypoint maths
waypoint k = record { pos = at_point k 0; tolerance = 1 }

abbrev route : RobotRoute maths
route = record { start = pose_at 0 0; waypoints = waypoint 3 ∷ (waypoint 6 ∷ []) }

abbrev chosen : ActiveRoute maths
chosen = record {
  active_route_start_pose = pose_at 0 0;
  active_route = waypoint 3 ∷ (waypoint 6 ∷ []);
  active_waypoint_index = 0;
  final_goal_reached = false;
}

abbrev positions : List (Point2 naturals)
positions = at_point 0 0 ∷ (at_point 3 0 ∷ (at_point 6 0 ∷ []))

goal_in_order_example :
    final_of maths (travel maths positions chosen)
    ≡ some (visits maths chosen.active_route positions)
goal_in_order_example =
    goal_in_order maths (λ bound rng. (0, rng)) false (route ∷ []) 5 positions chosen 5
      (unfold select_route in refl)

abbrev wall : EntityRef ℕ
wall = record { entity_type = EntityType.static_entity; index = 0; name = 40 }

abbrev car : ℕ → EntityRef ℕ
car i = record { entity_type = EntityType.dynamic_entity; index = i; name = 50 + i }

abbrev body : List (ModelPart maths)
body =
    record {
      rel_pose = pose_at 0 0;
      geom = record { base = Shape2.circle 2; z_min = 0; z_max = 3 };
    }
    ∷ []

abbrev a_box : Aabb2 naturals
a_box = record { min = at_point 0 0; max = at_point 9 9 }

abbrev scene_instance : ℕ → SceneInstance maths
scene_instance id = record { entity_id = id; model = some body; bounds = a_box }

abbrev instance_id : SceneInstance maths → ℕ
instance_id i = i.entity_id

abbrev registrations : List (Refine.Call ℕ (SceneInstance maths))
registrations =
    Refine.Call.registers 0 wall
    ∷ (Refine.Call.registers 1 (car 0)
        ∷ (Refine.Call.refreshes (scene_instance 0 ∷ []) (scene_instance 1 ∷ []) ∷ []))

registry_refines_example :
    (find_entity 1 (Refine.calls instance_id registrations empty_registry)
      ≡ (calls_maps instance_id registrations empty_maps).entities 1)
    × (instance_for 1 (Refine.calls instance_id registrations empty_registry)
        ≡ (calls_maps instance_id registrations empty_maps).instances 1)
registry_refines_example = registry_refines instance_id registrations 1

abbrev scenery : Scenery maths ℕ
scenery = record {
  registry = Refine.calls instance_id registrations empty_registry;
  static_poses = pose_at 1 1 ∷ [];
  object_ids = 1 ∷ (2 ∷ []);
  robot_entity_id = 3;
  robot_model = body;
}

robot_contacts_lem_example :
    let after =
      resolve_robot maths 100 scenery
        (pose_at 0 0)
        (0 ∷ (1 ∷ []))
        (record { objects = objects; contacts = []; collision_results = [] }) in
    let hits = robot_hits maths 100 scenery (pose_at 0 0) (look maths objects) (0 ∷ (1 ∷ [])) in
    (after.contacts ≡ map (contact_of maths 100 scenery) hits)
    × ((after.collision_results ≡ map (result_of_hit maths 100 scenery) hits)
        × (after.objects ≡ collide_all maths (struck_all maths 100 scenery hits) objects))
robot_contacts_lem_example =
    robot_contacts_lem maths 100 scenery (pose_at 0 0) (0 ∷ (1 ∷ [])) objects

abbrev find_all : Aabb2 naturals → Bool → Bool → List ℕ
find_all box statics dynamics = 0 ∷ (1 ∷ (2 ∷ []))

dynamic_collisions_lem_example :
    (resolve_dynamic_object_collisions maths 100 scenery find_all objects
      ≡ collide_all maths
          (pair_events maths 100 scenery find_all (look maths objects) (range_from 0 2)
            ++ all_wall_events maths 100 scenery find_all (look maths objects) (range_from 0 2))
          objects)
    × ((self_at maths 100 scenery 0 (look maths objects) ≡ some (1, a_box, body, pose_at 0 0))
        ↔ IsSelf maths 100 scenery 0 (look maths objects) (1, a_box, body, pose_at 0 0))
    × ((object_hit maths 100 scenery 0 1 body (pose_at 0 0) (look maths objects) 2 ≡ some 1)
        ↔ MeetsObject maths 100 scenery 0 1 body (pose_at 0 0) (look maths objects) 2 1)
    × ((static_hit maths 100 scenery body (pose_at 0 0) 2 ≡ true)
        ↔ MeetsStatic maths 100 scenery body (pose_at 0 0) 2)
dynamic_collisions_lem_example =
    dynamic_collisions_lem maths 100 scenery find_all objects 0 1 a_box body (pose_at 0 0) 2 1

abbrev surroundings : Surroundings maths ℕ
surroundings = record {
  Robot = Pose2 maths;
  Trees = ℕ;
  Action = ℕ;
  infinity = 100;
  get_pose = λ r. r;
  get_velocity = λ r. record { linear = at_point 1 0; angular = 0 };
  update_robot = λ dt r. (true, r);
  set_action = λ a r. (true, pose_at a 0);
  notify_collision = λ cs t r. (true, r);
  clear_collision_state = λ r. r;
  part_bounds = λ p pose. record { min = pose.pos; max = pose.pos };
  update_dynamics = λ id pose t. suc t;
  refit_dynamics = λ t. t;
  query_entity_ids = λ t. find_all;
  static_instances = λ t. scene_instance 0 ∷ [];
  dynamic_instances = λ t. scene_instance 1 ∷ (scene_instance 2 ∷ []);
}

abbrev first_world : World maths surroundings
first_world = record {
  sim_time = 0;
  last_update_dt = 0;
  snapshot_dirty = false;
  spawn_manager = manager;
  robot = pose_at 100 100;
  trees = 0;
  scenery = scenery;
  pending_collision_report = none;
  route = chosen;
}

abbrev world_calls : List (Keeps.Call maths surroundings settings world)
world_calls =
    Keeps.Call.acts 3 ∷ (Keeps.Call.updates 1 ∷ (Keeps.Call.tells ∷ (Keeps.Call.updates 1 ∷ [])))

world-IsSound_example :
    IsSound maths surroundings settings world
      (Keeps.calls maths surroundings settings world world_calls first_world)
world-IsSound_example =
    world-IsSound maths surroundings settings world world_calls first_world objects 7 refl refl
      (unfold new_object sample_new_target_speed schedule_next_random_stop in (refl, (refl, tt)))
