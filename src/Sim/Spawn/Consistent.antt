-- ===== src/Sim/Spawn/Consistent.antt =====
-- The invariant of the state of libs/sim/src/spawn_manager.cpp, and that the changes that its
-- operations are made of keep it.
use ddrl_nav2d.Prelude.{
  ℕ, zero, suc, ◌+◌, ◌%◌, ◌^◌, ◌<◌, ◌≤◌, ◌≡◌, refl, true, false, List, [], ◌∷◌, Option, none, some,
  length, get_elem?, ltb, ◌==◌, arith, Bool-cases, inl, inr,
}
use mathlib.Core.Option
use ddrl_nav2d.Sim.Maths.{Maths}
use ddrl_nav2d.Sim.Object.{
  DynamicObjectState, Object, teleport, deactivate, sample_new_target_speed,
  schedule_next_random_stop,
}
use ddrl_nav2d.Sim.Spawn.{
  SpawnPriority, QueuedObject, Queues, MapConfig, increment, has, insert, remove, queue_of,
  set_queue, push_entry, out_of_bounds_pose,
}
use ddrl_nav2d.Sim.Spawn.Despawn.{modify}
use ddrl_nav2d.Sim.Spawn.Counts.{
  one_if, count, queued, queued-push, has-count, count-has, count-remove, length-remove,
  length-modify, get_elem?-modify_other, get_elem?-modify_self,
}

pub ==-eq : (i x : ℕ) → (i == x) ≡ true → i ≡ x
==-eq i x h = ground arith

zero_add : (n : ℕ) → 0 + n ≡ n
zero_add n = omega arith

module _ (M : Maths) (world : MapConfig M) where
  -- Inactive, at the place for objects that are not in use.
  abbrev pub IsParked : Object M → Type 0
  IsParked o =
      (o.state ≡ DynamicObjectState.inactive) × (o.current_pose ≡ out_of_bounds_pose M world)

  -- An object that is in use no times is parked.
  abbrev pub Settled : ℕ → Option (Object M) → Type 0
  Settled n none = Unit
  Settled zero (some o) = IsParked o
  Settled (suc n) (some o) = Unit

  in_use : (n : ℕ) (o : Option (Object M)) → 0 < n → Settled n o
  in_use n none h = tt
  in_use zero (some o) h = elim h [ ]
  in_use (suc n) (some o) h = tt

  put_away-Settled :
      (n : ℕ) (o : Option (Object M))
      → Settled n
          (Option.map (deactivate M) (Option.map (teleport M (out_of_bounds_pose M world)) o))
  unfolding deactivate teleport sample_new_target_speed schedule_next_random_stop
  put_away-Settled n none = tt
  put_away-Settled zero (some o) = (refl, refl)
  put_away-Settled (suc n) (some o) = tt

module _ (M : Maths) (world : MapConfig M) where
  -- `held` lists the indices between a queue and the active objects, of which `cap` are allowed.
  pub record Consistent (cap : ℕ) (held : List ℕ) (objects : List (Object M)) (q : Queues M)
      (active : List ℕ) (spawns despawns : ℕ) : Type 0 where
    pub each_once :
        (i : ℕ) → count i held + queued i q + count i active ≡ one_if (ltb i (length objects))
    pub settled : (i : ℕ) → Settled M world (count i active) (get_elem? objects i)
    pub counted : spawns ≡ (despawns + length active) % 2 ^ 64
    pub bounded : length active ≤ cap

  module _ (cap : ℕ) (objects : List (Object M)) (q : Queues M) (active : List ℕ)
      (spawns despawns : ℕ) where
    pub Consistent-pop :
        (p : SpawnPriority) (e : QueuedObject M) (rest : List (QueuedObject M))
        → queue_of p q ≡ e ∷ rest
        → Consistent cap [] objects q active spawns despawns
        → Consistent cap (e.object_index ∷ []) objects (set_queue p rest q) active spawns despawns
    Consistent-pop p e rest h c = ground arith

    pub Consistent-push :
        (p : SpawnPriority) (e : QueuedObject M)
        → Consistent cap (e.object_index ∷ []) objects q active spawns despawns
        → Consistent cap [] objects (push_entry p e q) active spawns despawns
    Consistent-push p e c = record {
      each_once = λ i. omega (arith, c.each_once i, queued-push i p e q);
      settled = c.settled;
      counted = c.counted;
      bounded = c.bounded;
    }

    -- A held object that exists is not active.
    held-inactive :
        (x : ℕ) → Consistent cap (x ∷ []) objects q active spawns despawns → count x active ≡ 0
    held-inactive x c = ground (arith, c.each_once x)

    pub Consistent-place :
        (x : ℕ) (f : Object M → Object M)
        → length active < cap
        → Consistent cap (x ∷ []) objects q active spawns despawns
        → Consistent cap [] (modify x f objects) q (insert x active) (increment spawns) despawns
    Consistent-place x f room c =
        let fresh = has-count x active (held-inactive x c) in
        rw fresh (record {
          each_once = λ i. rw (length-modify x f objects) (omega (arith, c.each_once i));
          settled = λ i. elim (Bool-cases (i == x)) [
            | inl t ↦ rw t (
                in_use M world (1 + count i active) (get_elem? (modify x f objects) i)
                  (omega arith))
            | inr n ↦
                rw (n, zero_add (count i active), get_elem?-modify_other x i f objects n)
                  (c.settled i)
          ];
          counted = omega (arith, c.counted);
          bounded = room;
        })

    pub Consistent-reroute :
        (x : ℕ) (f : Object M → Object M)
        → has x active ≡ true
        → Consistent cap [] objects q active spawns despawns
        → Consistent cap [] (modify x f objects) q active spawns despawns
    Consistent-reroute x f h c = record {
      each_once = λ i. rw (length-modify x f objects) (c.each_once i);
      settled = λ i. elim (Bool-cases (i == x)) [
        | inl t ↦
            in_use M world (count i active) (get_elem? (modify x f objects) i)
              (ground (arith, count-has x active h))
        | inr n ↦ rw (get_elem?-modify_other x i f objects n) (c.settled i)
      ];
      counted = c.counted;
      bounded = c.bounded;
    }

    pub Consistent-release :
        (x : ℕ)
        → has x active ≡ true
        → Consistent cap [] objects q active spawns despawns
        → Consistent cap
            (x ∷ [])
            (modify x (deactivate M) (modify x (teleport M (out_of_bounds_pose M world)) objects))
            q
            (remove x active)
            spawns
            (increment despawns)
    Consistent-release x h c =
        let kept : (i : ℕ) → (i == x) ≡ false → count i (remove x active) ≡ count i active =
          λ i n. ground (arith, count-remove i x active h) in
        record {
          each_once = λ i.
              rw
                (
                  length-modify x (deactivate M)
                      (modify x (teleport M (out_of_bounds_pose M world)) objects),
                  length-modify x (teleport M (out_of_bounds_pose M world)) objects,
                )
                (omega (arith, c.each_once i, count-remove i x active h));
          settled = λ i. elim (Bool-cases (i == x)) [
            | inl t ↦
                rw
                  (
                    ==-eq i x t,
                    get_elem?-modify_self x (deactivate M)
                        (modify x (teleport M (out_of_bounds_pose M world)) objects),
                    get_elem?-modify_self x (teleport M (out_of_bounds_pose M world)) objects,
                  )
                  (put_away-Settled M world (count x (remove x active)) (get_elem? objects x))
            | inr n ↦
                rw
                  (
                    get_elem?-modify_other x i (deactivate M)
                        (modify x (teleport M (out_of_bounds_pose M world)) objects) n,
                    get_elem?-modify_other x i (teleport M (out_of_bounds_pose M world)) objects n,
                    kept i n,
                  )
                  (c.settled i)
          ];
          counted = omega (arith, c.counted, length-remove x active h);
          bounded = omega (arith, c.bounded, length-remove x active h);
        }
