-- ===== src/Sim/Spawn/Limits.antt =====
-- The limits of one call of `spawn_from_queue` of libs/sim/src/spawn_manager.cpp, and the end of its
-- while loop.
use ddrl_nav2d.Prelude.{
  ℕ, zero, suc, ◌+◌, ◌-◌, ◌≤◌, ◌<◌, ◌≡◌, ◌||◌, false, List, [], ◌∷◌, Option, none, some, length,
  leb, ◌==◌, Bool-cases, inl, inr, if-both, arith,
}
use ddrl_nav2d.Sim.Maths.{Maths, Pose2}
use ddrl_nav2d.Sim.Spawn.{
  SpawnPriority, Settings, MapConfig, QueuedObject, Manager, queue_of, total_queued,
}
use ddrl_nav2d.Sim.Spawn.Queue.{
  Frame, Limits, is_empty, pop_entry, try_entry, attempt, may_attempt, attempt_loop,
  try_priority_queue, try_priorities, spawn_with, spawn_from_queue,
}

module _ (M : Maths) (cfg : Settings M) (world : MapConfig M) where
  -- One attempt, which may spawn one object.
  Attempted : Frame M → Frame M → Type 0
  Attempted f g =
      (g.attempts ≡ f.attempts)
      × (g.spawns ≤ suc f.spawns)
      × (length g.manager.active_objects + f.spawns ≤ length f.manager.active_objects + g.spawns)

  try_entry-Attempted :
      (robot_pose : Pose2 M) (p : SpawnPriority) (e : QueuedObject M) (f : Frame M)
      → Attempted f (try_entry M cfg world robot_pose p e f)
  unfolding try_entry Attempted
  try_entry-Attempted robot_pose p e f = ground arith

  -- The counters of a frame that began with `n` active objects.
  Within : ℕ → Limits → Frame M → Type 0
  Within n limits f =
      (f.spawns ≤ limits.max_spawns) × (length f.manager.active_objects ≤ n + f.spawns)

  attempt-Within :
      (n : ℕ) (limits : Limits) (robot_pose : Pose2 M) (p : SpawnPriority)
      (es : List (QueuedObject M)) (f : Frame M)
      → f.spawns < limits.max_spawns
      → Within n limits f
      → Within n limits (attempt M cfg world robot_pose p es f)
  unfolding Within Attempted
  attempt-Within n limits robot_pose p [] f room w = w
  attempt-Within n limits robot_pose p (e ∷ es) f room w =
      let done = try_entry-Attempted robot_pose p e (pop_entry M cfg world p es f) in
      (omega (arith, done.1), omega (arith, done.2, w.1))

  attempt_loop-Within :
      (k n : ℕ) (limits : Limits) (robot_pose : Pose2 M) (p : SpawnPriority) (f : Frame M)
      → Within n limits f
      → Within n limits (attempt_loop M cfg world k limits robot_pose p f)
  unfolding attempt_loop
  attempt_loop-Within zero n limits robot_pose p f w = w
  attempt_loop-Within (suc k) n limits robot_pose p f w =
      elim (Bool-cases (may_attempt M cfg world limits p f)) [
        | inl t ↦ rw t (
            attempt_loop-Within k n limits robot_pose p _ (
              attempt-Within n limits robot_pose p (queue_of p f.manager.priority_queues) f
                (ground arith) w))
        | inr s ↦ rw s w
      ]

  try_priorities-Within :
      (ps : List SpawnPriority) (n : ℕ) (limits : Limits) (robot_pose : Pose2 M) (f : Frame M)
      → Within n limits f
      → Within n limits (try_priorities M cfg world ps limits robot_pose f)
  unfolding try_priorities try_priority_queue
  try_priorities-Within [] n limits robot_pose f w = w
  try_priorities-Within (p ∷ ps) n limits robot_pose f w =
      let served = attempt_loop-Within limits.max_attempts n limits robot_pose p f w in
      if-both (Within n limits) _ served (try_priorities-Within ps n limits robot_pose _ served)

  spawn_with-limit :
      (dist : Option (List M.Real)) (limits : Limits) (robot_pose : Pose2 M) (s : Manager M)
      → length (spawn_with M cfg world dist limits robot_pose s).active_objects
        ≤ length s.active_objects + limits.max_spawns
  unfolding Within
  spawn_with-limit none limits robot_pose s = omega arith
  spawn_with-limit (some weights) limits robot_pose s =
      let w =
        try_priorities-Within
          (SpawnPriority.high ∷ (SpawnPriority.normal ∷ (SpawnPriority.low ∷ [])))
          (length s.active_objects) limits robot_pose
          (record { manager = s; spawns = 0; attempts = 0 }) (omega arith, omega arith) in
      omega (arith, w.0, w.1)

  -- One call of `spawn_from_queue` makes at most as many objects active as it was told to.
  pub spawn_from_queue_limit :
      (robot_pose : Pose2 M) (max_spawns max_attempts : ℕ) (s : Manager M)
      → length (spawn_from_queue M cfg world robot_pose max_spawns max_attempts s).active_objects
        ≤ length s.active_objects + max_spawns
  unfolding spawn_from_queue
  spawn_from_queue_limit robot_pose max_spawns max_attempts s =
      let Fine : Manager M → Type 0 =
        λ t. length t.active_objects ≤ length s.active_objects + max_spawns in
      if-both Fine ((max_spawns == 0) || (max_attempts == 0)) {x = s} {y = _} (omega arith) (
        if-both Fine (leb cfg.max_active_objects (length s.active_objects) || (total_queued s == 0))
          {x = s} {y = _} (omega arith) (spawn_with-limit s.bias_cache.band_dist _ robot_pose s))

  attempt-attempts :
      (robot_pose : Pose2 M) (p : SpawnPriority) (es : List (QueuedObject M)) (f : Frame M)
      → is_empty es ≡ false
      → (attempt M cfg world robot_pose p es f).attempts ≡ suc f.attempts
  unfolding Attempted
  attempt-attempts robot_pose p [] f h = ground arith
  attempt-attempts robot_pose p (e ∷ es) f h =
      (try_entry-Attempted robot_pose p e (pop_entry M cfg world p es f)).0

  attempt_loop_ends :
      (k : ℕ) (limits : Limits) (robot_pose : Pose2 M) (p : SpawnPriority) (f : Frame M)
      → limits.max_attempts - f.attempts ≤ k
      → may_attempt M cfg world limits p (attempt_loop M cfg world k limits robot_pose p f) ≡ false
  unfolding attempt_loop
  attempt_loop_ends zero limits robot_pose p f h = ground arith
  attempt_loop_ends (suc k) limits robot_pose p f h =
      elim (Bool-cases (may_attempt M cfg world limits p f)) [
        | inl t ↦
            let entries = queue_of p f.manager.priority_queues in
            let one = attempt-attempts robot_pose p entries f (ground arith) in
            rw t (attempt_loop_ends k limits robot_pose p _ (ground (arith, one)))
        | inr s ↦ rw s s
      ]

  -- The while loop over a queue ends by its own test: the queue is empty, or a limit is reached.
  pub try_priority_queue_ends :
      (limits : Limits) (robot_pose : Pose2 M) (p : SpawnPriority) (f : Frame M)
      → may_attempt M cfg world limits p (try_priority_queue M cfg world limits robot_pose p f)
        ≡ false
  unfolding try_priority_queue
  try_priority_queue_ends limits robot_pose p f =
      attempt_loop_ends limits.max_attempts limits robot_pose p f (omega arith)
