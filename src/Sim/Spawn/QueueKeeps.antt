-- ===== src/Sim/Spawn/QueueKeeps.antt =====
-- Spawning from the queues of libs/sim/src/spawn_manager.cpp keeps the invariant.
use ddrl_nav2d.Prelude.{
  ℕ, ◌<◌, arith, zero, suc, ◌≡◌, refl, List, [], ◌∷◌, Option, none, some, length, ltb, Bool-cases,
  inl, inr, if-both,
}
use ddrl_nav2d.Sim.Maths.{Maths, Pose2}
use ddrl_nav2d.Sim.Spawn.{SpawnPriority, Settings, MapConfig, QueuedObject, Manager, queue_of}
use ddrl_nav2d.Sim.Spawn.Pose.{find_spawn_pose}
use ddrl_nav2d.Sim.Spawn.Queue.{
  Frame, Limits, place, try_entry, attempt, may_attempt, attempt_loop, try_priority_queue,
  try_priorities, spawn_with, spawn_from_queue, ensure_minimum_active,
}
use ddrl_nav2d.Sim.Spawn.Consistent.{Consistent, Consistent-pop, Consistent-push, Consistent-place}
use ddrl_nav2d.Sim.Spawn.Keeps.{IsConsistent}

module _ (M : Maths) (cfg : Settings M) (world : MapConfig M) where
  -- The invariant while an entry is held, and of a frame.
  Holds : List ℕ → Frame M → Type 0
  Holds held f =
      Consistent M world cfg.max_active_objects held f.manager.objects f.manager.priority_queues
        f.manager.active_objects f.manager.total_spawns f.manager.total_despawns

  place-Holds :
      (p : SpawnPriority) (e : QueuedObject M) (found : Option (Pose2 M) × M.Engine) (f : Frame M)
      → length f.manager.active_objects < cfg.max_active_objects
      → Holds (e.object_index ∷ []) f
      → Holds [] (place M cfg world p e found f)
  unfolding Holds
  place-Holds p e (none, rng) f room c = Consistent-push M world _ _ _ _ _ _ p e c
  place-Holds p e (some pose, rng) f room c =
      Consistent-place M world _ _ _ _ _ _ e.object_index _ room c

  try_entry-Holds :
      (robot_pose : Pose2 M) (p : SpawnPriority) (e : QueuedObject M) (f : Frame M)
      → length f.manager.active_objects < cfg.max_active_objects
      → Holds (e.object_index ∷ []) f
      → Holds [] (try_entry M cfg world robot_pose p e f)
  unfolding Holds try_entry
  try_entry-Holds robot_pose p e f room c =
      elim (Bool-cases (ltb e.object_index (length f.manager.objects))) [
        | inl t ↦ rw t (place-Holds p e (find_spawn_pose M cfg world f.manager robot_pose) f room c)
        | inr n ↦ rw n (Consistent-push M world _ _ _ _ _ _ p e c)
      ]

  attempt-Holds :
      (robot_pose : Pose2 M) (p : SpawnPriority) (es : List (QueuedObject M)) (f : Frame M)
      → queue_of p f.manager.priority_queues ≡ es
      → length f.manager.active_objects < cfg.max_active_objects
      → Holds [] f
      → Holds [] (attempt M cfg world robot_pose p es f)
  unfolding Holds
  attempt-Holds robot_pose p [] f e room c = c
  attempt-Holds robot_pose p (entry ∷ rest) f e room c =
      try_entry-Holds robot_pose p entry _ room
        (Consistent-pop M world _ _ _ _ _ _ p entry rest e c)

  attempt_loop-Holds :
      (n : ℕ) (limits : Limits) (robot_pose : Pose2 M) (p : SpawnPriority) (f : Frame M)
      → Holds [] f
      → Holds [] (attempt_loop M cfg world n limits robot_pose p f)
  unfolding attempt_loop
  attempt_loop-Holds zero limits robot_pose p f c = c
  attempt_loop-Holds (suc n) limits robot_pose p f c =
      elim (Bool-cases (may_attempt M cfg world limits p f)) [
        | inl t ↦ rw t (
            attempt_loop-Holds n limits robot_pose p
              (attempt M cfg world robot_pose p (queue_of p f.manager.priority_queues) f)
              (attempt-Holds robot_pose p (queue_of p f.manager.priority_queues) f refl
                (ground arith) c))
        | inr s ↦ rw s c
      ]

  try_priorities-Holds :
      (ps : List SpawnPriority) (limits : Limits) (robot_pose : Pose2 M) (f : Frame M)
      → Holds [] f
      → Holds [] (try_priorities M cfg world ps limits robot_pose f)
  unfolding try_priorities try_priority_queue
  try_priorities-Holds [] limits robot_pose f c = c
  try_priorities-Holds (p ∷ ps) limits robot_pose f c =
      let served = attempt_loop-Holds limits.max_attempts limits robot_pose p f c in
      if-both (Holds []) _ served (try_priorities-Holds ps limits robot_pose _ served)

  spawn_with-IsConsistent :
      (dist : Option (List M.Real)) (limits : Limits) (robot_pose : Pose2 M) (s : Manager M)
      → IsConsistent M cfg world s
      → IsConsistent M cfg world (spawn_with M cfg world dist limits robot_pose s)
  unfolding Holds IsConsistent
  spawn_with-IsConsistent none limits robot_pose s c = c
  spawn_with-IsConsistent (some weights) limits robot_pose s c =
      try_priorities-Holds _ limits robot_pose _ c

  pub spawn_from_queue-IsConsistent :
      (robot_pose : Pose2 M) (max_spawns max_attempts : ℕ) (s : Manager M)
      → IsConsistent M cfg world s
      → IsConsistent M cfg world (spawn_from_queue M cfg world robot_pose max_spawns max_attempts s)
  unfolding spawn_from_queue
  spawn_from_queue-IsConsistent robot_pose max_spawns max_attempts s c =
      if-both (IsConsistent M cfg world) _ c (
        if-both (IsConsistent M cfg world) _ c
          (spawn_with-IsConsistent s.bias_cache.band_dist _ robot_pose s c))

  pub ensure_minimum_active-IsConsistent :
      (robot_pose : Pose2 M) (s : Manager M)
      → IsConsistent M cfg world s
      → IsConsistent M cfg world (ensure_minimum_active M cfg world robot_pose s)
  unfolding ensure_minimum_active
  ensure_minimum_active-IsConsistent robot_pose s c =
      if-both (IsConsistent M cfg world) _ c
        (if-both (IsConsistent M cfg world) _ c (spawn_from_queue-IsConsistent robot_pose _ _ s c))
