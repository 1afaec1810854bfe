-- ===== src/Sim/Spawn/Start.antt =====
-- The constructor of libs/sim/src/spawn_manager.cpp establishes the invariant.
use ddrl_nav2d.Prelude.{
  ℕ, zero, suc, ◌+◌, ◌≡◌, refl, subst, ◌∙◌, Bool, true, false, List, [], ◌∷◌, All, Option, none,
  some, length, get_elem?, ltb, ◌==◌, Bool-cases, inl, inr, arith, lt→ltb, get_elem?-none,
}
use mathlib.Core.Option
use ddrl_nav2d.Sim.Maths.{Maths}
use ddrl_nav2d.Sim.Object.{
  DynamicObjectState, Object, teleport, sample_new_target_speed, schedule_next_random_stop,
}
use ddrl_nav2d.Sim.Spawn.{
  SpawnPriority, DespawnReason, Settings, MapConfig, Manager, enqueue_object, out_of_bounds_pose,
}
use ddrl_nav2d.Sim.Spawn.Despawn.{move_object_out_of_bounds}
use ddrl_nav2d.Sim.Spawn.Update.{enqueue_from, make_manager, fresh_manager}
use ddrl_nav2d.Sim.Spawn.Counts.{
  one_if, queued, queued-push, length-modify, get_elem?-modify_other, get_elem?-modify_self,
}
use ddrl_nav2d.Sim.Spawn.Consistent.{IsParked, Settled, ==-eq}
use ddrl_nav2d.Sim.Spawn.Keeps.{IsConsistent}

ltb-suc : (i k : ℕ) → (i == k) ≡ false → ltb i (suc k) ≡ ltb i k
ltb-suc i k h = ground arith

one_if-suc : (i k n : ℕ) → n ≡ one_if (ltb i k) → one_if (i == k) + n ≡ one_if (ltb i (suc k))
one_if-suc i k n h = ground arith

ltb_zero : (i : ℕ) → ltb i 0 ≡ false
ltb_zero i = ground arith

module _ (M : Maths) (cfg : Settings M) (world : MapConfig M) where
  -- Parked if it was moved, and inactive otherwise.
  Ready : Bool → Option (Object M) → Type 0
  Ready moved none = Unit
  Ready true (some o) = IsParked M world o
  Ready false (some o) = o.state ≡ DynamicObjectState.inactive

  move-Ready :
      (moved : Bool) (o : Option (Object M))
      → Ready moved o
      → Ready true (Option.map (teleport M (out_of_bounds_pose M world)) o)
  unfolding Ready teleport sample_new_target_speed schedule_next_random_stop
  move-Ready moved none h = tt
  move-Ready true (some o) h = (h.0, refl)
  move-Ready false (some o) h = (h, refl)

  -- The constructor's loop at the index `k`.
  record Starting (k : ℕ) (s : Manager M) : Type 0 where
    pub enqueued : (i : ℕ) → queued i s.priority_queues ≡ one_if (ltb i k)
    pub ready : (i : ℕ) → Ready (ltb i k) (get_elem? s.objects i)
    pub unused : (s.active_objects ≡ []) × (s.total_spawns ≡ 0) × (s.total_despawns ≡ 0)

  Starting-step :
      (k : ℕ) (s : Manager M)
      → Starting k s
      → Starting (suc k) (
          move_object_out_of_bounds M world k
            (enqueue_object k SpawnPriority.low DespawnReason.initial s))
  unfolding move_object_out_of_bounds enqueue_object
  Starting-step k s h = record {
    enqueued = λ i.
        queued-push i SpawnPriority.low _ s.priority_queues
        ∙ one_if-suc i k (queued i s.priority_queues) (h.enqueued i);
    ready = λ i. elim (Bool-cases (i == k)) [
      | inl t ↦
          rw
            (
              ==-eq i k t,
              lt→ltb k (suc k) (omega arith),
              get_elem?-modify_self k (teleport M (out_of_bounds_pose M world)) s.objects,
            )
            (move-Ready (ltb k k) (get_elem? s.objects k) (h.ready k))
      | inr n ↦
          rw
            (
              get_elem?-modify_other k i (teleport M (out_of_bounds_pose M world)) s.objects n,
              ltb-suc i k n,
            )
            (h.ready i)
    ];
    unused = h.unused;
  }

  Ready-Settled : (o : Option (Object M)) → Ready true o → Settled M world 0 o
  unfolding Ready
  Ready-Settled none h = tt
  Ready-Settled (some o) h = h

  Starting-end :
      (k : ℕ) (s : Manager M) → k ≡ length s.objects → Starting k s → IsConsistent M cfg world s
  unfolding IsConsistent
  Starting-end k s e h = record {
    each_once = λ i. rw h.unused.0 (ground (arith, h.enqueued i));
    settled = λ i. rw h.unused.0 (elim (Bool-cases (ltb i k)) [
      | inl t ↦
          Ready-Settled (get_elem? s.objects i)
            (subst (λ b. Ready b (get_elem? s.objects i)) t (h.ready i))
      | inr n ↦ rw (get_elem?-none s.objects i (ground arith)) tt
    ]);
    counted = rw (h.unused.0, h.unused.1, h.unused.2) (omega arith);
    bounded = rw h.unused.0 (omega arith);
  }

  length-move :
      (k : ℕ) (s : Manager M)
      → length
          (move_object_out_of_bounds M world k
            (enqueue_object k SpawnPriority.low DespawnReason.initial s)).objects
        ≡ length s.objects
  unfolding move_object_out_of_bounds enqueue_object
  length-move k s = length-modify k (teleport M (out_of_bounds_pose M world)) s.objects

  enqueue_from-IsConsistent :
      (n k : ℕ) (s : Manager M)
      → k + n ≡ length s.objects
      → Starting k s
      → IsConsistent M cfg world (enqueue_from M cfg world k n s)
  enqueue_from-IsConsistent zero k s e h = Starting-end k s (omega arith) h
  enqueue_from-IsConsistent (suc n) k s e h =
      enqueue_from-IsConsistent n (suc k) _ (omega (arith, length-move k s)) (Starting-step k s h)

  inactive-Ready :
      (objects : List (Object M))
      → All (λ o. o.state ≡ DynamicObjectState.inactive) objects
      → (i : ℕ) → Ready false (get_elem? objects i)
  unfolding Ready
  inactive-Ready [] h i = tt
  inactive-Ready (o ∷ os) h zero = h.0
  inactive-Ready (o ∷ os) h (suc i) = inactive-Ready os h.1 i

  pub make_manager-IsConsistent :
      (objects : List (Object M)) (rng_seed : ℕ)
      → All (λ o. o.state ≡ DynamicObjectState.inactive) objects
      → IsConsistent M cfg world (make_manager M cfg world objects rng_seed)
  unfolding make_manager
  make_manager-IsConsistent objects rng_seed h =
      enqueue_from-IsConsistent (length objects) 0 (fresh_manager M cfg world objects rng_seed)
        (omega arith)
        (record {
          enqueued = λ i. ground arith;
          ready = λ i. rw (ltb_zero i) (inactive-Ready objects h i);
          unused = (refl, refl, refl);
        })
