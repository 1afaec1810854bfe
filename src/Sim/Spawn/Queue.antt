-- ===== src/Sim/Spawn/Queue.antt =====
-- `spawn_from_queue` and `ensure_minimum_active` of libs/sim/src/spawn_manager.cpp. The while loop
-- over a queue has the greatest number of attempts as fuel: each pass makes one.
use ddrl_nav2d.Prelude.{
  ℕ, zero, suc, ◌-◌, ◌*◌, ◌%◌, ◌^◌, max, Bool, true, false, not, ◌&&◌, ◌||◌, if◌then◌else◌, List,
  [], ◌∷◌, Option, none, some, length, ltb, leb, ◌==◌,
}
use ddrl_nav2d.Sim.Maths.{Maths, Pose2}
use ddrl_nav2d.Sim.Object.{teleport, activate}
use ddrl_nav2d.Sim.Spawn.{
  SpawnPriority, Settings, MapConfig, QueuedObject, Manager, increment, insert, queue_of, set_queue,
  push_entry, total_queued,
}
use ddrl_nav2d.Sim.Spawn.Pose.{find_spawn_pose}
use ddrl_nav2d.Sim.Spawn.Despawn.{modify}

abbrev pub is_empty {ℓ} : {A : Type ℓ} → List A → Bool
is_empty [] = true
is_empty (x ∷ xs) = false

-- The manager with the two counters of the frame.
module _ (M : Maths) where
  pub record Frame : Type 0 where
    pub manager : Manager M
    pub spawns : ℕ
    pub attempts : ℕ

-- The limits that `spawn_from_queue` is called with.
pub record Limits : Type 0 where
  pub max_spawns : ℕ
  pub max_attempts : ℕ

module _ (M : Maths) (cfg : Settings M) (world : MapConfig M) where
  -- `queue.push_back(entry)`
  abbrev pub give_back : SpawnPriority → QueuedObject M → Manager M → Manager M
  give_back p entry s = record s { priority_queues = push_entry p entry s.priority_queues }

  abbrev pub place :
      SpawnPriority → QueuedObject M → Option (Pose2 M) × M.Engine → Frame M → Frame M
  place p entry (some pose, rng) f = record f {
    manager = record f.manager {
      objects =
          modify entry.object_index (λ obj. activate M (teleport M pose obj)) f.manager.objects;
      active_objects = insert entry.object_index f.manager.active_objects;
      total_spawns = increment f.manager.total_spawns;
      rng = rng;
    };
    spawns = suc f.spawns;
  }
  place p entry (none, rng) f = record f {
    manager = give_back p entry (record f.manager {
      failed_spawn_attempts = increment f.manager.failed_spawn_attempts;
      rng = rng;
    });
  }

  -- An entry that was popped.
  unfoldable pub try_entry : Pose2 M → SpawnPriority → QueuedObject M → Frame M → Frame M
  try_entry robot_pose p entry f =
      if ltb entry.object_index (length f.manager.objects)
      then place p entry (find_spawn_pose M cfg world f.manager robot_pose) f
      else record f { manager = give_back p entry f.manager }

  -- `queue.pop_front()`, which counts as an attempt; the queue's other entries are given.
  abbrev pub pop_entry : SpawnPriority → List (QueuedObject M) → Frame M → Frame M
  pop_entry p rest f = record f {
    manager = record f.manager { priority_queues = set_queue p rest f.manager.priority_queues };
    attempts = suc f.attempts;
  }

  -- The body of the while loop.
  abbrev pub attempt : Pose2 M → SpawnPriority → List (QueuedObject M) → Frame M → Frame M
  attempt robot_pose p [] f = f
  attempt robot_pose p (entry ∷ rest) f = try_entry robot_pose p entry (pop_entry p rest f)

  abbrev pub within_limits : Limits → Frame M → Bool
  within_limits limits f =
      (ltb f.spawns limits.max_spawns && ltb f.attempts limits.max_attempts)
      && ltb (length f.manager.active_objects) cfg.max_active_objects

  abbrev pub may_attempt : Limits → SpawnPriority → Frame M → Bool
  may_attempt limits p f =
      not (is_empty (queue_of p f.manager.priority_queues)) && within_limits limits f

  abbrev pub proceed : Bool → Frame M → (Frame M → Frame M) → Frame M → Frame M
  proceed true f body stop = body f
  proceed false f body stop = stop

  unfoldable pub attempt_loop : ℕ → Limits → Pose2 M → SpawnPriority → Frame M → Frame M
  attempt_loop zero limits robot_pose p f = f
  attempt_loop (suc n) limits robot_pose p f =
      proceed (may_attempt limits p f) f
        (λ g.
          attempt_loop n limits robot_pose p
            (attempt robot_pose p (queue_of p g.manager.priority_queues) g))
        f

module _ (M : Maths) (cfg : Settings M) (world : MapConfig M) where
  -- `try_priority_queue`
  unfoldable pub try_priority_queue : Limits → Pose2 M → SpawnPriority → Frame M → Frame M
  try_priority_queue limits robot_pose p f =
      attempt_loop M cfg world limits.max_attempts limits robot_pose p f

module _ (M : Maths) (cfg : Settings M) (world : MapConfig M) where
  -- The loop over the priorities, which breaks when a limit is reached.
  unfoldable pub try_priorities : List SpawnPriority → Limits → Pose2 M → Frame M → Frame M
  try_priorities [] limits robot_pose f = f
  try_priorities (p ∷ ps) limits robot_pose f =
      let served = try_priority_queue M cfg world limits robot_pose p f in
      let next = try_priorities ps limits robot_pose served in
      if not (within_limits M cfg world limits served) then served else next

  abbrev pub spawn_with : Option (List M.Real) → Limits → Pose2 M → Manager M → Manager M
  spawn_with none limits robot_pose s = s
  spawn_with (some weights) limits robot_pose s =
      (try_priorities (SpawnPriority.high ∷ (SpawnPriority.normal ∷ (SpawnPriority.low ∷ [])))
        limits robot_pose (record { manager = s; spawns = 0; attempts = 0 })).manager

  unfoldable pub spawn_from_queue : Pose2 M → ℕ → ℕ → Manager M → Manager M
  spawn_from_queue robot_pose max_spawns max_attempts s =
      if (max_spawns == 0) || (max_attempts == 0)
      then s
      else if leb cfg.max_active_objects (length s.active_objects) || (total_queued s == 0)
      then s
      else spawn_with s.bias_cache.band_dist
          (record { max_spawns = max_spawns; max_attempts = max_attempts }) robot_pose s

  unfoldable pub ensure_minimum_active : Pose2 M → Manager M → Manager M
  ensure_minimum_active robot_pose s =
      let needed = cfg.min_active_objects - length s.active_objects in
      let base_attempts = max 1 cfg.max_spawn_attempts_per_frame in
      if leb cfg.min_active_objects (length s.active_objects)
      then s
      else if total_queued s == 0
      then s
      else spawn_from_queue robot_pose needed (max ((needed * 20) % 2 ^ 64) base_attempts) s
