-- ===== src/Sim/World/Update/Keeps.antt =====
-- What the updates of the world of libs/sim/src/world.cpp keep of the spawn manager, of which they
-- share the objects, and of the collision report.
use ddrl_nav2d.Prelude.{
  ℕ, zero, suc, ◌<◌, ◌≡◌, refl, ap, sym, subst, Bool, true, false, List, [], ◌∷◌, ◌++◌, All, map,
  Option, none, some, length, get_elem?, range_from, arith,
}
use mathlib.Core.Option
use ddrl_nav2d.Collision.Sat.{CollisionResult}
use ddrl_nav2d.Sim.Maths.{Maths, Pose2, Twist2}
use ddrl_nav2d.Sim.Object.{DynamicObjectState, Object}
use ddrl_nav2d.Sim.Object.Motion
use ddrl_nav2d.Sim.Spawn.{Settings, MapConfig, Manager}
use ddrl_nav2d.Sim.Spawn.Counts.{count}
use ddrl_nav2d.Sim.Spawn.Update.{make_manager}
use ddrl_nav2d.Sim.Spawn.Start.{make_manager-IsConsistent}
use ddrl_nav2d.Sim.Spawn.Keeps.{IsConsistent}
use ddrl_nav2d.Sim.Spawn.Runs.{Event, map-Settled, update_in-IsParked, happen-IsConsistent}
use ddrl_nav2d.Sim.World.Route.{RouteTelemetry, ActiveRoute}
use ddrl_nav2d.Sim.World.Severity.{CollisionContact, compute_collision_severity}
use ddrl_nav2d.Sim.World.Collide.{look, Tally}
use ddrl_nav2d.Sim.World.Collide.Events.{collide_all, struck_all, robot_hits, robot_contacts_lem}
use ddrl_nav2d.Sim.World.Collide.Pairs.{pair_events, all_wall_events, passes-events}
use ddrl_nav2d.Sim.World.Update.{
  Surroundings, CollisionReport, World, update_scene_trees, model_bounds, notified, report_of,
  resolve_robot_collisions, after_robot, run_collisions_detection, after_collisions, with_robot,
  update_objects, update_world, consume_report, told, tell_route, act,
}

module _ {A B : Type 0} (f : A → B) where
  length-map : (xs : List A) → length (map f xs) ≡ length xs
  length-map [] = refl
  length-map (x ∷ xs) = ap suc (length-map xs)

  get_elem?-map : (xs : List A) (i : ℕ) → get_elem? (map f xs) i ≡ Option.map f (get_elem? xs i)
  get_elem?-map [] i = refl
  get_elem?-map (x ∷ xs) zero = refl
  get_elem?-map (x ∷ xs) (suc i) = get_elem?-map xs i

module _ (M : Maths) (cfg : Settings M) (area : MapConfig M) where
  map-IsConsistent :
      (dt : M.Real) (s : Manager M)
      → IsConsistent M cfg area s
      → IsConsistent M cfg area (record s { objects = map (Motion.update M dt) s.objects })
  unfolding IsConsistent Motion.update
  map-IsConsistent dt s c = record {
    each_once = λ j. rw (length-map (Motion.update M dt) s.objects) (c.each_once j);
    settled = λ j. rw (get_elem?-map (Motion.update M dt) s.objects j) (
        map-Settled M cfg area (count j s.active_objects) (Motion.update M dt)
          (get_elem? s.objects j) (λ o p. update_in-IsParked M cfg area o.state dt _ p.0 p)
          (c.settled j));
    counted = c.counted;
    bounded = c.bounded;
  }

  collide_all-IsConsistent :
      (is : List ℕ) (objects : List (Object M)) (s : Manager M)
      → IsConsistent M cfg area (record s { objects = objects })
      → IsConsistent M cfg area (record s { objects = collide_all M is objects })
  collide_all-IsConsistent [] objects s c = c
  collide_all-IsConsistent (i ∷ is) objects s c =
      collide_all-IsConsistent is _ s (
        happen-IsConsistent M cfg area (Event.object_collided i) (record s { objects = objects }) c)

  -- A report has a contact, and its severity counts the contacts.
  abbrev pub Reported : {Name : Type 0} → Option (CollisionReport M Name) → Type 0
  Reported none = Unit
  Reported (some r) = (0 < length r.contacts) × (r.severity.contact_count ≡ length r.contacts)

module _ (M : Maths) {Name : Type 0} where
  severity-count :
      (cs : List (CollisionContact M Name)) (results : List (CollisionResult M))
      (velocity : Twist2 M) (pose : Pose2 M)
      → (compute_collision_severity M cs results velocity pose).contact_count ≡ length cs
  unfolding compute_collision_severity
  severity-count [] results velocity pose = refl
  severity-count (c ∷ cs) results velocity pose = refl

module _ (M : Maths) {Name : Type 0} (E : Surroundings M Name) (cfg : Settings M)
    (area : MapConfig M) where
  abbrev pub IsSound : World M E → Type 0
  IsSound w =
      IsConsistent M cfg area w.spawn_manager × Reported M cfg area w.pending_collision_report

  report_of-IsSound :
      (cs : List (CollisionContact M Name)) (t : Tally M Name) (w : World M E)
      → t.contacts ≡ cs
      → IsConsistent M cfg area (record w.spawn_manager { objects = t.objects })
      → Reported M cfg area w.pending_collision_report
      → IsSound (report_of M E cs t w).1
  report_of-IsSound [] t w e c h = (c, tt)
  report_of-IsSound (x ∷ xs) t w e c h = go (E.notify_collision t.contacts w.sim_time w.robot)
    where
      some_contact : 0 < length t.contacts
      some_contact = rw e (omega arith)

      go : (r : Bool × E.Robot) → IsSound (notified M E r t w).1
      go (false, robot) = (c, h)
      go (true, robot) = (c, (some_contact, severity-count M t.contacts _ _ _))

  robot-IsSound : (w : World M E) → IsSound w → IsSound (resolve_robot_collisions M E w).1
  robot-IsSound w s =
      let pose = E.get_pose w.robot in
      report_of-IsSound _ _ w refl
        (subst (λ os. IsConsistent M cfg area (record w.spawn_manager { objects = os }))
          (sym (robot_contacts_lem M E.infinity w.scenery _ _ w.spawn_manager.objects).1.1)
          (collide_all-IsConsistent M cfg area
            (struck_all M E.infinity w.scenery (
              robot_hits M E.infinity w.scenery pose (look M w.spawn_manager.objects) (
                E.query_entity_ids w.trees (model_bounds M E w.scenery.robot_model pose) true
                  true)))
            w.spawn_manager.objects w.spawn_manager s.0))
        s.1

  after_robot-IsSound : (r : Bool × World M E) → IsSound r.1 → IsSound (after_robot M E r).1
  after_robot-IsSound (false, w) s = s
  after_robot-IsSound (true, w) s =
      let seen = look M w.spawn_manager.objects in
      let all = range_from 0 (length w.spawn_manager.objects) in
      (
        subst (λ os. IsConsistent M cfg area (record w.spawn_manager { objects = os }))
            (sym (
              passes-events M E.infinity w.scenery (E.query_entity_ids w.trees)
                w.spawn_manager.objects))
            (collide_all-IsConsistent M cfg area
              (pair_events M E.infinity w.scenery (E.query_entity_ids w.trees) seen all
                ++ all_wall_events M E.infinity w.scenery (E.query_entity_ids w.trees) seen all)
              w.spawn_manager.objects w.spawn_manager s.0),
        s.1,
      )

  collisions-IsSound : (w : World M E) → IsSound w → IsSound (run_collisions_detection M E w).1
  unfolding run_collisions_detection
  collisions-IsSound w s = after_robot-IsSound _ (robot-IsSound _ s)

  after_collisions-IsSound :
      (r : Bool × World M E) → IsSound r.1 → IsSound (after_collisions M E r).1
  after_collisions-IsSound (false, w) s = s
  after_collisions-IsSound (true, w) s = s

  scene-IsSound : (w : World M E) → IsSound w → IsSound (update_scene_trees M E w)
  unfolding update_scene_trees
  scene-IsSound w s = s

  with_robot-IsSound :
      (r : Bool × E.Robot) (w : World M E) → IsSound w → IsSound (with_robot M E r w).1
  with_robot-IsSound (false, robot) w s = s
  with_robot-IsSound (true, robot) w s =
      after_collisions-IsSound _
        (collisions-IsSound _ (scene-IsSound (record w { robot = robot }) s))

  objects-IsSound :
      (dt : M.Real) (w : World M E) → IsSound w → IsSound (update_objects M E cfg area dt w)
  unfolding update_objects
  objects-IsSound dt w s = (
    map-IsConsistent M cfg area dt _ (
        happen-IsConsistent M cfg area (Event.updated dt (E.get_pose w.robot)) w.spawn_manager s.0),
    s.1,
  )

  update-IsSound :
      (dt : M.Real) (w : World M E) → IsSound w → IsSound (update_world M E cfg area dt w).1
  unfolding update_world
  update-IsSound dt w s = with_robot-IsSound _ _ (objects-IsSound dt w s)

  -- The calls that the simulator makes of the world.
  pub data Call : Type 0 where
    updates : M.Real → Call
    acts : E.Action → Call
    consumes : Call
    tells : Call

module _ (M : Maths) {Name : Type 0} (E : Surroundings M Name) (cfg : Settings M)
    (area : MapConfig M) where
  abbrev pub call : Call M E cfg area → World M E → World M E
  call (Call.updates dt) w = (update_world M E cfg area dt w).1
  call (Call.acts action) w = (act M E action w).1
  call Call.consumes w = (consume_report M E w).1
  call Call.tells w = (tell_route M E w).1

  abbrev pub calls : List (Call M E cfg area) → World M E → World M E
  calls [] w = w
  calls (c ∷ cs) w = calls cs (call c w)

  told-IsSound :
      (o : Option (RouteTelemetry M × ActiveRoute M)) (w : World M E)
      → IsSound M E cfg area w
      → IsSound M E cfg area (told M E o w).1
  told-IsSound none w s = s
  told-IsSound (some (telemetry, route)) w s = s

  call-IsSound :
      (c : Call M E cfg area) (w : World M E)
      → IsSound M E cfg area w
      → IsSound M E cfg area (call c w)
  unfolding act consume_report tell_route
  call-IsSound (Call.updates dt) w s = update-IsSound M E cfg area dt w s
  call-IsSound (Call.acts action) w s = s
  call-IsSound Call.consumes w s = (s.0, tt)
  call-IsSound Call.tells w s = told-IsSound _ w s

  calls-IsSound :
      (cs : List (Call M E cfg area)) (w : World M E)
      → IsSound M E cfg area w
      → IsSound M E cfg area (calls cs w)
  calls-IsSound [] w s = s
  calls-IsSound (c ∷ cs) w s = calls-IsSound cs (call c w) (call-IsSound c w s)

  -- Start the world with objects that are inactive and no report, and let the simulator make any
  -- calls, also where the robot reports errors. Then the spawn manager, of whose objects the world
  -- moves and stops some in every update, is consistent as after its own updates; and a pending
  -- collision report has at least one contact, and its severity counts them all.
  pub world-IsSound :
      (cs : List (Call M E cfg area)) (w : World M E) (objects : List (Object M)) (rng_seed : ℕ)
      → w.spawn_manager ≡ make_manager M cfg area objects rng_seed
      → w.pending_collision_report ≡ none
      → All (λ o. o.state ≡ DynamicObjectState.inactive) objects
      → IsSound M E cfg area (calls cs w)
  world-IsSound cs w objects rng_seed m n h = calls-IsSound cs w (
    subst (λ s. IsConsistent M cfg area s) (sym m)
        (make_manager-IsConsistent M cfg area objects rng_seed h),
    subst (λ r. Reported M cfg area r) (sym n) tt,
  )
