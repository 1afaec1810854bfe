-- ===== src/Sim/World/Collide.antt =====
-- `resolve_robot_collisions` and `resolve_dynamic_object_collisions` of libs/sim/src/world.cpp. The
-- query of the broad phase is an argument; the objects' ids stand in a list beside them.
pub mod Events
pub mod Meets
pub mod Pairs
use ddrl_nav2d.Prelude.{
  ℕ, zero, suc, Bool, true, false, List, [], ◌∷◌, ◌++◌, map, Option, none, some, length, get_elem?,
  range_from, if◌then◌else◌, ltb, ◌==◌,
}
use ddrl_nav2d.Collision.Bounds.{Aabb2}
use ddrl_nav2d.Collision.Sat.{CollisionResult}
use ddrl_nav2d.Sim.Maths.{Maths, Pose2}
use ddrl_nav2d.Sim.Object.{Object, is_active, on_collision}
use ddrl_nav2d.Sim.Spawn.Despawn.{modify}
use ddrl_nav2d.Sim.World.Entities.{EntityType, EntityRef, Registry, find_entity, instance_for}
use ddrl_nav2d.Sim.World.Severity.{ModelPart, CollisionContact, narrow_phase_intersect_check}

module _ (M : Maths) where
  -- `TLAS2::Instance`, with what the world reads of it.
  pub record SceneInstance : Type 0 where
    pub entity_id : ℕ
    pub model : Option (List (ModelPart M))
    pub bounds : Aabb2 M.double

module _ (M : Maths) (Name : Type 0) where
  -- A contact that the loop over the robot's candidates adds, and the object that it stops.
  pub record Hit : Type 0 where
    pub contact : CollisionContact M Name
    pub result : CollisionResult M
    pub struck : Option ℕ

  pub record Tally : Type 0 where
    pub objects : List (Object M)
    pub contacts : List (CollisionContact M Name)
    pub collision_results : List (CollisionResult M)

  -- What the loops read and do not change.
  pub record Scenery : Type 0 where
    pub registry : Registry Name (SceneInstance M)
    pub static_poses : List (Pose2 M)
    pub object_ids : List ℕ
    pub robot_entity_id : ℕ
    pub robot_model : List (ModelPart M)

module _ (M : Maths) where
  abbrev pub pose_if_active : Option (Object M) → Option (Pose2 M)
  pose_if_active none = none
  pose_if_active (some o) = if is_active M o then some o.current_pose else none

  -- The pose of an object that is there and active.
  abbrev pub look : List (Object M) → ℕ → Option (Pose2 M)
  look objects i = pose_if_active (get_elem? objects i)

  abbrev pub as_static : Option (Pose2 M) → Option (Pose2 M × Bool)
  as_static none = none
  as_static (some p) = some (p, false)

  abbrev pub as_dynamic : Option (Pose2 M) → Option (Pose2 M × Bool)
  as_dynamic none = none
  as_dynamic (some p) = some (p, true)

  -- The other side's pose, and whether it is dynamic; `none` skips the candidate.
  abbrev pub other_at :
      EntityType → ℕ → List (Pose2 M) → (ℕ → Option (Pose2 M)) → Option (Pose2 M × Bool)
  other_at EntityType.static_entity i statics seen = as_static (get_elem? statics i)
  other_at EntityType.dynamic_entity i statics seen = as_dynamic (seen i)
  other_at EntityType.robot_entity i statics seen = none

  abbrev pub strike_object : Option ℕ → List (Object M) → List (Object M)
  strike_object none objects = objects
  strike_object (some i) objects = modify i (on_collision M) objects

module _ (M : Maths) (infinity : M.Real) {Name : Type 0} (S : Scenery M Name) where
  abbrev hit_of :
      EntityRef Name → List (ModelPart M) → Pose2 M → Option (Pose2 M × Bool) → Option (Hit M Name)
  hit_of entity model robot_pose none = none
  hit_of entity model robot_pose (some (other_pose, dynamic)) =
      let result =
        narrow_phase_intersect_check M infinity S.robot_model robot_pose model other_pose in
      if result.intersects
      then some (record {
        contact = record {
          other_name = entity.name;
          other_pose = other_pose;
          other_is_dynamic = dynamic;
        };
        result = result;
        struck = if dynamic then some entity.index else none;
      })
      else none

  abbrev with_model :
      EntityRef Name
      → Option (List (ModelPart M))
      → Pose2 M
      → (ℕ → Option (Pose2 M))
      → Option (Hit M Name)
  with_model entity none robot_pose seen = none
  with_model entity (some model) robot_pose seen =
      hit_of entity model robot_pose
        (other_at M entity.entity_type entity.index S.static_poses seen)

  abbrev with_instance :
      Option (EntityRef Name)
      → Option (SceneInstance M)
      → Pose2 M
      → (ℕ → Option (Pose2 M))
      → Option (Hit M Name)
  with_instance none inst robot_pose seen = none
  with_instance (some entity) none robot_pose seen = none
  with_instance (some entity) (some inst) robot_pose seen =
      with_model entity inst.model robot_pose seen

  -- A pass of the loop over the robot's candidates.
  unfoldable pub robot_hit : Pose2 M → (ℕ → Option (Pose2 M)) → ℕ → Option (Hit M Name)
  robot_hit robot_pose seen candidate =
      if candidate == S.robot_entity_id
      then none
      else with_instance (find_entity candidate S.registry) (instance_for candidate S.registry)
          robot_pose seen

  abbrev pub strike : Option (Hit M Name) → Tally M Name → Tally M Name
  strike none t = t
  strike (some h) t = record {
    objects = strike_object M h.struck t.objects;
    contacts = t.contacts ++ (h.contact ∷ []);
    collision_results = t.collision_results ++ (h.result ∷ []);
  }

  unfoldable pub resolve_robot : Pose2 M → List ℕ → Tally M Name → Tally M Name
  resolve_robot robot_pose [] t = t
  resolve_robot robot_pose (c ∷ cs) t =
      resolve_robot robot_pose cs (strike (robot_hit robot_pose (look M t.objects) c) t)

  -- Whether the models of an object and of another candidate intersect.
  abbrev pub meets :
      List (ModelPart M) → Pose2 M → Option (SceneInstance M) → Option (Pose2 M) → Bool
  meets model pose none other_pose = false
  meets model pose (some inst) none = false
  meets model pose (some inst) (some other_pose) = elim inst.model [
    | none ↦ false
    | some other_model ↦
        (narrow_phase_intersect_check M infinity model pose other_model other_pose).intersects
  ]

  -- The object `j` that the object `i` runs into at a candidate.
  abbrev partner :
      ℕ
      → List (ModelPart M)
      → Pose2 M
      → (ℕ → Option (Pose2 M))
      → Option (EntityRef Name)
      → Option (SceneInstance M)
      → Option ℕ
  partner i model pose seen none inst = none
  partner i model pose seen (some entity) inst =
      if ltb i entity.index
      then if meets model pose inst (seen entity.index) then some entity.index else none
      else none

  unfoldable pub object_hit :
      ℕ → ℕ → List (ModelPart M) → Pose2 M → (ℕ → Option (Pose2 M)) → ℕ → Option ℕ
  object_hit i self_id model pose seen candidate =
      if candidate == self_id
      then none
      else partner i model pose seen (find_entity candidate S.registry)
          (instance_for candidate S.registry)

  abbrev pub strike_both : ℕ → Option ℕ → List (Object M) → List (Object M)
  strike_both i none objects = objects
  strike_both i (some j) objects = modify j (on_collision M) (modify i (on_collision M) objects)

  abbrev pub resolve_candidates :
      ℕ → ℕ → List (ModelPart M) → Pose2 M → List ℕ → List (Object M) → List (Object M)
  resolve_candidates i self_id model pose [] objects = objects
  resolve_candidates i self_id model pose (c ∷ cs) objects =
      resolve_candidates i self_id model pose cs
        (strike_both i (object_hit i self_id model pose (look M objects) c) objects)

  -- The static entity at a candidate, of which the pose is read without a test of its type.
  abbrev static_meets :
      List (ModelPart M) → Pose2 M → Option (EntityRef Name) → Option (SceneInstance M) → Bool
  static_meets model pose none inst = false
  static_meets model pose (some entity) inst =
      meets model pose inst (get_elem? S.static_poses entity.index)

  unfoldable pub static_hit : List (ModelPart M) → Pose2 M → ℕ → Bool
  static_hit model pose candidate =
      static_meets model pose (find_entity candidate S.registry) (instance_for candidate S.registry)

  abbrev pub resolve_statics :
      ℕ → List (ModelPart M) → Pose2 M → List ℕ → List (Object M) → List (Object M)
  resolve_statics i model pose [] objects = objects
  resolve_statics i model pose (c ∷ cs) objects =
      resolve_statics i model pose cs
        (if static_hit model pose c then modify i (on_collision M) objects else objects)

  -- What both passes need of an object: its id, the bounds and the model of its instance, its pose.
  abbrev pub Self : Type 0
  Self = ℕ × Aabb2 M.double × List (ModelPart M) × Pose2 M

  abbrev self_of : ℕ → Option (SceneInstance M) → Option (Pose2 M) → Option Self
  self_of id none pose = none
  self_of id (some inst) none = none
  self_of id (some inst) (some pose) = elim inst.model [
    | none ↦ none
    | some model ↦ some (id, inst.bounds, model, pose)
  ]

  abbrev self_with : Option ℕ → Option (Pose2 M) → Option Self
  self_with none pose = none
  self_with (some id) pose = self_of id (instance_for id S.registry) pose

  unfoldable pub self_at : ℕ → (ℕ → Option (Pose2 M)) → Option Self
  self_at i seen = self_with (get_elem? S.object_ids i) (seen i)

module _ (M : Maths) (infinity : M.Real) {Name : Type 0} (S : Scenery M Name)
    (query : Aabb2 M.double → Bool → Bool → List ℕ) where
  abbrev pub pair_at : ℕ → Option (Self M infinity S) → List (Object M) → List (Object M)
  pair_at i none objects = objects
  pair_at i (some (id, bounds, model, pose)) objects =
      resolve_candidates M infinity S i id model pose (query bounds false true) objects

  abbrev pub pairs : List ℕ → List (Object M) → List (Object M)
  pairs [] objects = objects
  pairs (i ∷ is) objects = pairs is (pair_at i (self_at M infinity S i (look M objects)) objects)

  abbrev pub static_at : ℕ → Option (Self M infinity S) → List (Object M) → List (Object M)
  static_at i none objects = objects
  static_at i (some (id, bounds, model, pose)) objects =
      resolve_statics M infinity S i model pose (query bounds true false) objects

  abbrev pub statics : List ℕ → List (Object M) → List (Object M)
  statics [] objects = objects
  statics (i ∷ is) objects =
      statics is (static_at i (self_at M infinity S i (look M objects)) objects)

  unfoldable pub resolve_dynamic_object_collisions : List (Object M) → List (Object M)
  resolve_dynamic_object_collisions objects =
      let all = range_from 0 (length objects) in statics all (pairs all objects)
