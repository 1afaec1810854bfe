-- ===== src/Sim/Spawn/Runs.antt =====
-- The manager of libs/sim/src/spawn_manager.cpp over a run: its updates, with the updates and the
-- collisions of the objects that libs/sim/src/world.cpp makes between them, in any order.
use ddrl_nav2d.Prelude.{
  ℕ, zero, suc, ◌≡◌, List, [], ◌∷◌, All, Option, none, some, get_elem?, ◌==◌, Bool-cases, inl, inr,
  arith,
}
use mathlib.Core.Option
use ddrl_nav2d.Sim.Maths.{Maths, Pose2}
use ddrl_nav2d.Sim.Object.{DynamicObjectState, Object, collide_in, on_collision}
use ddrl_nav2d.Sim.Object.Motion.{update_in}
use ddrl_nav2d.Sim.Object.Motion
use ddrl_nav2d.Sim.Spawn.{Settings, MapConfig, Manager}
use ddrl_nav2d.Sim.Spawn.Bias.{prepare_spawn_bias}
use ddrl_nav2d.Sim.Spawn.Despawn.{modify}
use ddrl_nav2d.Sim.Spawn.Update.{
  update_robot_motion, update_curriculum_distances, make_manager, begin_frame, update_frame, update,
}
use ddrl_nav2d.Sim.Spawn.Counts.{
  count, length-modify, get_elem?-modify_other, get_elem?-modify_self,
}
use ddrl_nav2d.Sim.Spawn.Consistent.{IsParked, Settled, ==-eq}
use ddrl_nav2d.Sim.Spawn.Keeps.{IsConsistent, check_and_despawn-IsConsistent}
use ddrl_nav2d.Sim.Spawn.Start.{make_manager-IsConsistent}
use ddrl_nav2d.Sim.Spawn.QueueKeeps.{
  spawn_from_queue-IsConsistent, ensure_minimum_active-IsConsistent,
}

module _ (M : Maths) where
  -- What happens to the manager and to the objects that it shares with the world.
  pub data Event : Type 0 where
    updated : M.Real → Pose2 M → Event
    object_updated : ℕ → M.Real → Event
    object_collided : ℕ → Event

module _ (M : Maths) (cfg : Settings M) (world : MapConfig M) where
  abbrev pub happen : Event M → Manager M → Manager M
  happen (Event.updated dt robot_pose) s = update M cfg world dt robot_pose s
  happen (Event.object_updated i dt) s = record s {
    objects = modify i (Motion.update M dt) s.objects;
  }
  happen (Event.object_collided i) s = record s { objects = modify i (on_collision M) s.objects }

  abbrev pub run : List (Event M) → Manager M → Manager M
  run [] s = s
  run (e ∷ es) s = run es (happen e s)

  begin_frame-IsConsistent :
      (dt : M.Real) (robot_pose : Pose2 M) (s : Manager M)
      → IsConsistent M cfg world s
      → IsConsistent M cfg world (begin_frame M cfg world dt robot_pose s)
  unfolding begin_frame update_curriculum_distances update_robot_motion IsConsistent
  begin_frame-IsConsistent dt robot_pose s c = c

  prepare-IsConsistent :
      (s : Manager M)
      → IsConsistent M cfg world s
      → IsConsistent M cfg world (prepare_spawn_bias M cfg s)
  unfolding prepare_spawn_bias IsConsistent
  prepare-IsConsistent s c = c

  update_frame-IsConsistent :
      (dt : M.Real) (robot_pose : Pose2 M) (os : List (Object M)) (s : Manager M)
      → IsConsistent M cfg world s
      → IsConsistent M cfg world (update_frame M cfg world dt robot_pose os s)
  update_frame-IsConsistent dt robot_pose [] s c = c
  update_frame-IsConsistent dt robot_pose (o ∷ os) s c =
      ensure_minimum_active-IsConsistent M cfg world robot_pose _ (
        spawn_from_queue-IsConsistent M cfg world robot_pose _ _ _ (
          prepare-IsConsistent _ (
            check_and_despawn-IsConsistent M cfg world robot_pose _
              (begin_frame-IsConsistent dt robot_pose s c))))

  pub map-Settled :
      (n : ℕ) (f : Object M → Object M) (o : Option (Object M))
      → ((o : Object M) → IsParked M world o → IsParked M world (f o))
      → Settled M world n o
      → Settled M world n (Option.map f o)
  map-Settled n f none keeps h = tt
  map-Settled zero f (some o) keeps h = keeps o h
  map-Settled (suc n) f (some o) keeps h = tt

  modify-IsConsistent :
      (i : ℕ) (f : Object M → Object M) (s : Manager M)
      → ((o : Object M) → IsParked M world o → IsParked M world (f o))
      → IsConsistent M cfg world s
      → IsConsistent M cfg world (record s { objects = modify i f s.objects })
  unfolding IsConsistent
  modify-IsConsistent i f s keeps c = record {
    each_once = λ j. rw (length-modify i f s.objects) (c.each_once j);
    settled = λ j. elim (Bool-cases (j == i)) [
      | inl t ↦
          rw (==-eq j i t, get_elem?-modify_self i f s.objects)
            (map-Settled (count i s.active_objects) f (get_elem? s.objects i) keeps (c.settled i))
      | inr n ↦ rw (get_elem?-modify_other i j f s.objects n) (c.settled j)
    ];
    counted = c.counted;
    bounded = c.bounded;
  }

  pub update_in-IsParked :
      (state : DynamicObjectState) (dt : M.Real) (o : Object M)
      → state ≡ DynamicObjectState.inactive
      → IsParked M world o
      → IsParked M world (update_in M state dt o)
  update_in-IsParked state dt o e p = ground arith

  collide_in-IsParked :
      (state : DynamicObjectState) (o : Object M)
      → state ≡ DynamicObjectState.inactive
      → IsParked M world o
      → IsParked M world (collide_in M state o)
  collide_in-IsParked state o e p = ground arith

  pub happen-IsConsistent :
      (e : Event M) (s : Manager M)
      → IsConsistent M cfg world s
      → IsConsistent M cfg world (happen e s)
  unfolding update Motion.update on_collision
  happen-IsConsistent (Event.updated dt robot_pose) s c =
      update_frame-IsConsistent dt robot_pose s.objects s c
  happen-IsConsistent (Event.object_updated i dt) s c =
      modify-IsConsistent i (Motion.update M dt) s (λ o p. update_in-IsParked o.state dt _ p.0 p) c
  happen-IsConsistent (Event.object_collided i) s c =
      modify-IsConsistent i (on_collision M) s (λ o p. collide_in-IsParked o.state o p.0 p) c

  pub run_keeps :
      (es : List (Event M)) (s : Manager M)
      → IsConsistent M cfg world s
      → IsConsistent M cfg world (run es s)
  run_keeps [] s c = c
  run_keeps (e ∷ es) s c = run_keeps es (happen e s) (happen-IsConsistent e s c)

  -- Start from objects that are inactive, as their constructor leaves them, and let the manager and
  -- the world update and collide objects in any order. Then every object is queued once or active
  -- once, never both; an object that is not active is inactive and parked beyond the map; the
  -- spawns are the despawns and the active objects, modulo 2 ^ 64; and no more
  -- objects are active than `max_active_objects`.
  pub run-IsConsistent :
      (objects : List (Object M)) (rng_seed : ℕ) (es : List (Event M))
      → All (λ o. o.state ≡ DynamicObjectState.inactive) objects
      → IsConsistent M cfg world (run es (make_manager M cfg world objects rng_seed))
  run-IsConsistent objects rng_seed es h =
      run_keeps es (make_manager M cfg world objects rng_seed)
        (make_manager-IsConsistent M cfg world objects rng_seed h)
