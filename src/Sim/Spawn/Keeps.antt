-- ===== src/Sim/Spawn/Keeps.antt =====
-- Every operation of the manager of libs/sim/src/spawn_manager.cpp keeps the invariant.
use ddrl_nav2d.Prelude.{
  ℕ, ◌≡◌, ◌||◌, refl, Bool, true, false, List, [], ◌∷◌, All, Option, none, some, length, get_elem?,
  leb, arith, Bool-cases, inl, inr, if-both,
}
use ddrl_nav2d.Sim.Maths.{Maths, Pose2}
use ddrl_nav2d.Sim.Object.{Object}
use ddrl_nav2d.Collision.Bounds.{Point2}
use ddrl_nav2d.Sim.Spawn.{
  SpawnPriority, DespawnReason, Settings, MapConfig, Manager, has, enqueue_object,
}
use ddrl_nav2d.Sim.Spawn.Despawn.{
  drop_stuck, reroute, handle_stuck, check_stuck, sort_out, check_object, check_objects,
  move_object_out_of_bounds, despawn_object_internal, despawn_all, check_and_despawn_objects,
}
use ddrl_nav2d.Sim.Spawn.Consistent.{
  Consistent, Consistent-push, Consistent-reroute, Consistent-release,
}

module _ (M : Maths) (cfg : Settings M) (world : MapConfig M) where
  unfoldable pub IsConsistent : Manager M → Type 0
  IsConsistent s =
      Consistent M world cfg.max_active_objects [] s.objects s.priority_queues s.active_objects
        s.total_spawns s.total_despawns

  despawn-IsConsistent :
      (x : ℕ) (reason : DespawnReason) (s : Manager M)
      → IsConsistent s
      → IsConsistent (despawn_object_internal M world x reason s)
  unfolding IsConsistent despawn_object_internal enqueue_object move_object_out_of_bounds
  despawn-IsConsistent x reason s c = elim (Bool-cases (leb (length s.objects) x)) [
    | inl t ↦ rw t c
    | inr f ↦ elim (Bool-cases (has x s.active_objects)) [
      | inl a ↦
          rw (f, a)
            (Consistent-push M world _ _ _ _ _ _ SpawnPriority.high _ (
              Consistent-release M world cfg.max_active_objects s.objects s.priority_queues
                s.active_objects s.total_spawns s.total_despawns x a c))
      | inr n ↦ rw (f, n) c
    ]
  ]

  despawn_all-IsConsistent :
      (rs : List (ℕ × DespawnReason)) (s : Manager M)
      → IsConsistent s
      → IsConsistent (despawn_all M world rs s)
  despawn_all-IsConsistent [] s c = c
  despawn_all-IsConsistent (r ∷ rs) s c =
      despawn_all-IsConsistent rs (despawn_object_internal M world r.0 r.1 s)
        (despawn-IsConsistent r.0 r.1 s c)

  -- What the loop over the active objects keeps: they are still active, and the invariant holds.
  Kept : List ℕ → Manager M × List (ℕ × DespawnReason) → Type 0
  Kept active scan = (scan.0.active_objects ≡ active) × IsConsistent scan.0

  -- The maps of times and the list of the found are no part of it.
  aside-Kept :
      (active : List ℕ) (s : Manager M) (found next : List (ℕ × DespawnReason))
      (stuck_since reroute_next_attempt : List (ℕ × M.Real))
      → Kept active (s, found)
      → Kept active (
        record s { stuck_since = stuck_since; reroute_next_attempt = reroute_next_attempt },
        next,
      )
  unfolding Kept IsConsistent
  aside-Kept active s found next stuck_since reroute_next_attempt k = k

  drop_stuck-Kept :
      (active : List ℕ) (out_of_range timed_out_unseen : Bool) (x : ℕ)
      (scan : Manager M × List (ℕ × DespawnReason))
      → Kept active scan
      → Kept active (drop_stuck M cfg world out_of_range timed_out_unseen x scan)
  unfolding Kept IsConsistent
  drop_stuck-Kept active out_of_range timed_out_unseen x scan k =
      if-both (Kept active) (out_of_range || timed_out_unseen) k k

  reroute-Kept :
      (active : List ℕ) (wps : Option (Point2 M.double × Point2 M.double))
      (out_of_range timed_out_unseen : Bool) (x : ℕ) (scan : Manager M × List (ℕ × DespawnReason))
      → has x active ≡ true
      → Kept active scan
      → Kept active (reroute M cfg world wps out_of_range timed_out_unseen x scan)
  unfolding Kept IsConsistent
  reroute-Kept active none out_of_range timed_out_unseen x (s, found) h k =
      drop_stuck-Kept active out_of_range timed_out_unseen x (_, found) k
  reroute-Kept active (some wps) out_of_range timed_out_unseen x (s, found) h (e, c) =
      (e, Consistent-reroute M world _ _ _ _ _ _ x _ (rw e h) c)

  handle_stuck-Kept :
      (active : List ℕ) (try_reroute : Bool) (wps : Option (Point2 M.double × Point2 M.double))
      (out_of_range timed_out_unseen : Bool) (x : ℕ) (scan : Manager M × List (ℕ × DespawnReason))
      → has x active ≡ true
      → Kept active scan
      → Kept active (handle_stuck M cfg world try_reroute wps out_of_range timed_out_unseen x scan)
  unfolding handle_stuck
  handle_stuck-Kept active true wps out_of_range timed_out_unseen x scan h k =
      reroute-Kept active wps out_of_range timed_out_unseen x scan h k
  handle_stuck-Kept active false wps out_of_range timed_out_unseen x scan h k =
      drop_stuck-Kept active out_of_range timed_out_unseen x scan k

  check_stuck-Kept :
      (active : List ℕ) (robot_pose : Pose2 M) (x : ℕ) (obj : Object M)
      (scan : Manager M × List (ℕ × DespawnReason))
      → has x active ≡ true
      → Kept active scan
      → Kept active (check_stuck M cfg world robot_pose x obj scan)
  unfolding check_stuck
  check_stuck-Kept active robot_pose x obj (s, found) h k =
      handle_stuck-Kept active _ _ _ _ x _ h (aside-Kept active s found found _ _ k)

  sort_out-Kept :
      (active : List ℕ) (gone far still : Bool) (x : ℕ)
      (when_stuck scan : Manager M × List (ℕ × DespawnReason))
      → Kept active when_stuck
      → Kept active scan
      → Kept active (sort_out M gone far still x when_stuck scan)
  unfolding sort_out Kept IsConsistent
  sort_out-Kept active true far still x when_stuck (s, found) w k = k
  sort_out-Kept active false true still x when_stuck (s, found) w k = k
  sort_out-Kept active false false true x when_stuck (s, found) w k = w
  sort_out-Kept active false false false x when_stuck (s, found) w k = k

  check_object-Kept :
      (active : List ℕ) (robot_pose : Pose2 M) (x : ℕ) (o : Option (Object M))
      (scan : Manager M × List (ℕ × DespawnReason))
      → has x active ≡ true
      → Kept active scan
      → Kept active (check_object M cfg world robot_pose x o scan)
  unfolding check_object
  check_object-Kept active robot_pose x none (s, found) h k = k
  check_object-Kept active robot_pose x (some obj) (s, found) h k =
      sort_out-Kept active _ _ _ x _ _ (check_stuck-Kept active robot_pose x obj (s, found) h k) k

  check_objects-Kept :
      (active : List ℕ) (robot_pose : Pose2 M) (xs : List ℕ)
      (scan : Manager M × List (ℕ × DespawnReason))
      → All (λ x. has x active ≡ true) xs
      → Kept active scan
      → Kept active (check_objects M cfg world robot_pose xs scan)
  unfolding check_objects
  check_objects-Kept active robot_pose [] scan h k = k
  check_objects-Kept active robot_pose (x ∷ xs) (s, found) h k =
      check_objects-Kept active robot_pose xs
        (check_object M cfg world robot_pose x (get_elem? s.objects x) (s, found)) h.1
        (check_object-Kept active robot_pose x (get_elem? s.objects x) (s, found) h.0 k)

  has-weaken :
      (y : ℕ) (ys xs : List ℕ) → All (λ x. has x ys ≡ true) xs → All (λ x. has x (y ∷ ys) ≡ true) xs
  has-weaken y ys [] h = tt
  has-weaken y ys (x ∷ xs) h = (ground (arith, h.0), has-weaken y ys xs h.1)

  has-All : (xs : List ℕ) → All (λ x. has x xs ≡ true) xs
  has-All [] = tt
  has-All (x ∷ xs) = (ground arith, has-weaken x xs xs (has-All xs))

  pub check_and_despawn-IsConsistent :
      (robot_pose : Pose2 M) (s : Manager M)
      → IsConsistent s
      → IsConsistent (check_and_despawn_objects M cfg world robot_pose s)
  unfolding check_and_despawn_objects Kept IsConsistent
  check_and_despawn-IsConsistent robot_pose s c =
      let scan = check_objects M cfg world robot_pose s.active_objects (s, []) in
      despawn_all-IsConsistent scan.1 scan.0
        (check_objects-Kept s.active_objects robot_pose s.active_objects (s, [])
          (has-All s.active_objects) (refl, c)).1
