-- ===== src/Sim/Spawn/Despawn.antt =====
-- `check_and_despawn_objects`, `despawn_object_internal` and
-- `move_object_out_of_bounds` of libs/sim/src/spawn_manager.cpp. The loop over the active objects
-- collects pairs of an index and a reason; the objects are despawned behind it.
use ddrl_nav2d.Prelude.{
  ℕ, zero, suc, Bool, true, false, not, ◌&&◌, ◌||◌, if◌then◌else◌, List, [], ◌∷◌, ◌++◌, Option,
  none, some, length, get_elem?, leb,
}
use ddrl_nav2d.Collision.Bounds.{Point2, std_max}
use ddrl_nav2d.Sim.Maths.{Maths, Pose2, distance}
use ddrl_nav2d.Sim.Object.{Object, is_active, is_stuck, teleport, deactivate, override_waypoints}
use ddrl_nav2d.Sim.Spawn.{
  SpawnPriority, DespawnReason, Settings, MapConfig, Manager, increment, has, remove, at_key,
  erase_key, put_key, enqueue_object, out_of_bounds_pose,
}
use ddrl_nav2d.Sim.Spawn.Reroute.{reroute_waypoints}
use ddrl_nav2d.Sim.Spawn.Geometry.{is_visible_to_robot}

-- A change of the element at an index; beyond the end there is none.
abbrev pub modify {ℓ} : {A : Type ℓ} → ℕ → (A → A) → List A → List A
modify i f [] = []
modify zero f (x ∷ xs) = f x ∷ xs
modify (suc i) f (x ∷ xs) = x ∷ modify i f xs

module _ (M : Maths) (cfg : Settings M) (world : MapConfig M) where
  open M use {Real, lt, le, add, sub, mul, div, decimal, neg}

  -- The end of the loop's body: a stuck object out of the sensors' range, or stuck too long and
  -- unseen, goes.
  abbrev pub drop_stuck :
      Bool → Bool → ℕ → Manager M × List (ℕ × DespawnReason) → Manager M × List (ℕ × DespawnReason)
  drop_stuck out_of_range timed_out_unseen idx (s, found) =
      if out_of_range || timed_out_unseen
      then (s, found ++ ((idx, DespawnReason.stuck) ∷ []))
      else (s, found)

  -- `try_reroute_object` and what follows when it fails.
  abbrev pub reroute :
      Option (Point2 M.double × Point2 M.double)
      → Bool
      → Bool
      → ℕ
      → Manager M × List (ℕ × DespawnReason)
      → Manager M × List (ℕ × DespawnReason)
  reroute (some wps) out_of_range timed_out_unseen idx (s, found) = (
    record s {
      objects = modify idx (override_waypoints M (wps.0 ∷ (wps.1 ∷ [])) false) s.objects;
      reroute_next_attempt = erase_key idx s.reroute_next_attempt;
    },
    found,
  )
  reroute none out_of_range timed_out_unseen idx (s, found) =
      drop_stuck out_of_range timed_out_unseen idx (
        record s {
          reroute_next_attempt =
              put_key idx (add s.queue_clock (decimal 1 0)) s.reroute_next_attempt;
        },
        found,
      )

  unfoldable pub handle_stuck :
      Bool
      → Option (Point2 M.double × Point2 M.double)
      → Bool
      → Bool
      → ℕ
      → Manager M × List (ℕ × DespawnReason)
      → Manager M × List (ℕ × DespawnReason)
  handle_stuck try_reroute wps out_of_range timed_out_unseen idx scan =
      if try_reroute
      then reroute wps out_of_range timed_out_unseen idx scan
      else drop_stuck out_of_range timed_out_unseen idx scan

  -- `try_emplace`: when the object was first seen stuck.
  abbrev first_stuck : Manager M → Option Real → Real
  first_stuck s none = s.queue_clock
  first_stuck s (some since) = since

  abbrev reroute_ready : Manager M → Option Real → Bool
  reroute_ready s none = true
  reroute_ready s (some next) = le next s.queue_clock

  -- The body of the loop for an object that is stuck.
  unfoldable pub check_stuck :
      Pose2 M
      → ℕ
      → Object M
      → Manager M × List (ℕ × DespawnReason)
      → Manager M × List (ℕ × DespawnReason)
  check_stuck robot_pose idx obj (s, found) =
      let visible =
        is_visible_to_robot M cfg world s.objects s.active_objects robot_pose obj.current_pose in
      let dist = distance M obj.current_pose.pos robot_pose.pos in
      let since = first_stuck s (at_key idx s.stuck_since) in
      let later : Manager M = record s { stuck_since = put_key idx since s.stuck_since } in
      let ready = reroute_ready s (at_key idx s.reroute_next_attempt) in
      let stuck_duration = std_max M.double M.zero (sub s.queue_clock since) in
      let timeout = std_max M.double M.zero cfg.stuck_timeout in
      let timed_out = lt M.zero timeout && le timeout stuck_duration in
      let out_of_range = lt (std_max M.double (decimal 1 0) cfg.max_sensor_range) dist in
      handle_stuck
        (((le (decimal 35 2) stuck_duration && ready) && visible) && le dist (decimal 30 0))
        (reroute_waypoints M cfg world s obj.current_pose robot_pose) out_of_range
        (timed_out && not visible) idx (later, found)

module _ (M : Maths) where
  -- The branches of the loop's body: an object that is inactive and unseen, one that is too far and
  -- unseen, one that is not stuck, and one that is, for which the outcome is given.
  unfoldable pub sort_out :
      (gone far still : Bool)
      → ℕ
      → (when_stuck : Manager M × List (ℕ × DespawnReason)) → Manager M × List (ℕ × DespawnReason)
      → Manager M × List (ℕ × DespawnReason)
  sort_out true far still idx when_stuck (s, found) = (
    record s { stuck_since = erase_key idx s.stuck_since },
    found ++ ((idx, DespawnReason.manual) ∷ []),
  )
  sort_out false true still idx when_stuck (s, found) =
      (s, found ++ ((idx, DespawnReason.too_far) ∷ []))
  sort_out false false true idx when_stuck (s, found) = when_stuck
  sort_out false false false idx when_stuck (s, found) = (
    record s {
      stuck_since = erase_key idx s.stuck_since;
      reroute_next_attempt = erase_key idx s.reroute_next_attempt;
    },
    found,
  )

module _ (M : Maths) (cfg : Settings M) (world : MapConfig M) where
  open M use {lt}

  -- The body of the loop over the active objects.
  unfoldable pub check_object :
      Pose2 M
      → ℕ
      → Option (Object M)
      → Manager M × List (ℕ × DespawnReason)
      → Manager M × List (ℕ × DespawnReason)
  check_object robot_pose idx none (s, found) = (s, found)
  check_object robot_pose idx (some obj) (s, found) =
      let visible =
        is_visible_to_robot M cfg world s.objects s.active_objects robot_pose obj.current_pose in
      let dist = distance M obj.current_pose.pos robot_pose.pos in
      sort_out M (not (is_active M obj) && not visible)
        (lt cfg.max_despawn_distance dist && not visible) (is_stuck M obj) idx
        (check_stuck M cfg world robot_pose idx obj (s, found)) (s, found)

  unfoldable pub check_objects :
      Pose2 M → List ℕ → Manager M × List (ℕ × DespawnReason) → Manager M × List (ℕ × DespawnReason)
  check_objects robot_pose [] (s, found) = (s, found)
  check_objects robot_pose (idx ∷ idxs) (s, found) =
      check_objects robot_pose idxs
        (check_object robot_pose idx (get_elem? s.objects idx) (s, found))

module _ (M : Maths) (world : MapConfig M) where
  unfoldable pub move_object_out_of_bounds : ℕ → Manager M → Manager M
  move_object_out_of_bounds object_index s = record s {
    objects = modify object_index (teleport M (out_of_bounds_pose M world)) s.objects;
  }

  unfoldable pub despawn_object_internal : ℕ → DespawnReason → Manager M → Manager M
  despawn_object_internal object_index reason s =
      if leb (length s.objects) object_index
      then s
      else if not (has object_index s.active_objects)
      then s
      else let moved = move_object_out_of_bounds object_index s in
        enqueue_object object_index SpawnPriority.high reason (record moved {
          objects = modify object_index (deactivate M) moved.objects;
          active_objects = remove object_index moved.active_objects;
          stuck_since = erase_key object_index moved.stuck_since;
          reroute_next_attempt = erase_key object_index moved.reroute_next_attempt;
          total_despawns = increment moved.total_despawns;
        })

  abbrev pub despawn_all : List (ℕ × DespawnReason) → Manager M → Manager M
  despawn_all [] s = s
  despawn_all (r ∷ rs) s = despawn_all rs (despawn_object_internal r.0 r.1 s)

module _ (M : Maths) (cfg : Settings M) (world : MapConfig M) where
  unfoldable pub check_and_despawn_objects : Pose2 M → Manager M → Manager M
  check_and_despawn_objects robot_pose s =
      let checked = check_objects M cfg world robot_pose s.active_objects (s, []) in
      despawn_all M world checked.1 checked.0
