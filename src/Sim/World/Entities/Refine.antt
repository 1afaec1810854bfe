-- ===== src/Sim/World/Entities/Refine.antt =====
-- The vectors of libs/sim/src/world.cpp stand for two maps from entity ids.
use ddrl_nav2d.Prelude.{
  ℕ, zero, suc, ◌+◌, ◌-◌, ◌≤◌, ◌<◌, ◌≡◌, refl, ◌∙◌, Bool, true, false, ◌||◌, Option, none, some,
  List, [], ◌∷◌, ◌++◌, length, set, if◌then◌else◌, ◌==◌, length-append, Bool-cases, inl, inr, arith,
}
use ddrl_nav2d.Sim.World.Entities.{
  EntityRef, blanks, grow, slot, Registry, ensure_entity_slot, register_entity, find_entity,
  clear_slots, reset_instance_cache, instance_for, cache_instance, cache_all, refresh,
}

length-blanks : (A : Type 0) (n : ℕ) → length (blanks {A = A} n) ≡ n
length-blanks A zero = refl
length-blanks A (suc n) = omega (arith, length-blanks A n)

module _ {A : Type 0} where
  slot-blanks : (n i : ℕ) → slot {A = A} (blanks n) i ≡ none
  slot-blanks zero i = refl
  slot-blanks (suc n) zero = refl
  slot-blanks (suc n) (suc i) = slot-blanks n i

  slot-append : (xs : List (Option A)) (n i : ℕ) → slot (xs ++ blanks n) i ≡ slot xs i
  slot-append [] n i = slot-blanks n i
  slot-append (x ∷ xs) n zero = refl
  slot-append (x ∷ xs) n (suc i) = slot-append xs n i

  le-length-grow : (n : ℕ) (xs : List (Option A)) → n ≤ length (grow n xs)
  le-length-grow n xs =
      omega (arith, length-append xs (blanks (n - length xs)), length-blanks A (n - length xs))

  slot-set :
      (xs : List (Option A)) (i j : ℕ) (v : Option A)
      → i < length xs
      → slot (set xs i v) j ≡ (if i == j then v else slot xs j)
  slot-set [] i j v h = absurd (omega arith)
  slot-set (x ∷ xs) zero zero v h = refl
  slot-set (x ∷ xs) zero (suc j) v h = ground arith
  slot-set (x ∷ xs) (suc i) zero v h = ground arith
  slot-set (x ∷ xs) (suc i) (suc j) v h = ground (arith, slot-set xs i j v)

  slot-clear :
      (xs : List (Option A)) (i j : ℕ)
      → slot (set xs i none) j ≡ (if i == j then none else slot xs j)
  slot-clear [] i j = ground arith
  slot-clear (x ∷ xs) zero zero = refl
  slot-clear (x ∷ xs) zero (suc j) = ground arith
  slot-clear (x ∷ xs) (suc i) zero = ground arith
  slot-clear (x ∷ xs) (suc i) (suc j) = ground (arith, slot-clear xs i j)

  slot-set-grow :
      (xs : List (Option A)) (i j : ℕ) (v : A)
      → slot (set (grow (i + 1) xs) i (some v)) j ≡ (if i == j then some v else slot xs j)
  slot-set-grow xs i j v =
      slot-set (grow (i + 1) xs) i j (some v) (omega (arith, le-length-grow (i + 1) xs))
      ∙ rw (slot-append xs (i + 1 - length xs) j)

abbrev is_in : ℕ → List ℕ → Bool
is_in i [] = false
is_in i (j ∷ js) = j == i || is_in i js

-- Two maps: what is registered, and what is cached.
pub record Maps (Name Inst : Type 0) : Type 0 where
  pub entities : ℕ → Option (EntityRef Name)
  pub instances : ℕ → Option Inst

abbrev pub put : {A : Type 0} → ℕ → A → (ℕ → Option A) → ℕ → Option A
put i v f j = if i == j then some v else f j

-- The calls that change the registry.
pub data Call (Name Inst : Type 0) : Type 0 where
  registers : ℕ → EntityRef Name → Call Name Inst
  refreshes : List Inst → List Inst → Call Name Inst

abbrev pub put_all : {Inst : Type 0} → (Inst → ℕ) → List Inst → (ℕ → Option Inst) → ℕ → Option Inst
put_all id_of [] f = f
put_all id_of (i ∷ is) f = put_all id_of is (put (id_of i) i f)

module _ {Name Inst : Type 0} (id_of : Inst → ℕ) where
  abbrev pub call : Call Name Inst → Registry Name Inst → Registry Name Inst
  call (Call.registers i e) s = register_entity i e s
  call (Call.refreshes statics dynamics) s = refresh id_of statics dynamics s

  abbrev pub call_maps : Call Name Inst → Maps Name Inst → Maps Name Inst
  call_maps (Call.registers i e) m = record m { entities = put i e m.entities }
  call_maps (Call.refreshes statics dynamics) m = record m {
    instances = put_all id_of dynamics (put_all id_of statics (λ i. none));
  }

  abbrev pub calls : List (Call Name Inst) → Registry Name Inst → Registry Name Inst
  calls [] s = s
  calls (c ∷ cs) s = calls cs (call c s)

  abbrev pub calls_maps : List (Call Name Inst) → Maps Name Inst → Maps Name Inst
  calls_maps [] m = m
  calls_maps (c ∷ cs) m = calls_maps cs (call_maps c m)

-- The registry holds the two maps, and no slot of the cache is in use but the touched ones.
record Stands {Name Inst : Type 0} (s : Registry Name Inst) (m : Maps Name Inst) : Type 0 where
  found : (i : ℕ) → slot s.entity_registry i ≡ m.entities i
  cached : (i : ℕ) → slot s.instance_lookup i ≡ m.instances i
  untouched : (i : ℕ) → is_in i s.instance_lookup_touched ≡ false → slot s.instance_lookup i ≡ none

slot-clear_slots :
    {A : Type 0} (is : List ℕ) (l : List (Option A)) (i : ℕ)
    → slot (clear_slots is l) i ≡ (if is_in i is then none else slot l i)
unfolding clear_slots
slot-clear_slots [] l i = refl
slot-clear_slots (j ∷ js) l i =
    ground (arith, slot-clear_slots js (set l j none) i, slot-clear l j i)

module _ {Name Inst : Type 0} where
  register-Stands :
      (i : ℕ) (e : EntityRef Name) (s : Registry Name Inst) (m : Maps Name Inst)
      → Stands s m
      → Stands (register_entity i e s) (record m { entities = put i e m.entities })
  unfolding register_entity ensure_entity_slot
  register-Stands i e s m h = record {
    found = λ j. slot-set-grow s.entity_registry i j e ∙ rw (h.found j);
    cached = λ j. slot-append s.instance_lookup (i + 1 - length s.instance_lookup) j ∙ h.cached j;
    untouched =
        λ j k. slot-append s.instance_lookup (i + 1 - length s.instance_lookup) j ∙ h.untouched j k;
  }

  reset-Stands :
      (s : Registry Name Inst) (m : Maps Name Inst)
      → Stands s m
      → Stands (reset_instance_cache s) (record m { instances = λ i. none })
  unfolding reset_instance_cache
  reset-Stands s m h = record {
    found = h.found;
    cached = λ i. cleared i;
    untouched = λ i k. cleared i;
  }
    where
      cleared : (i : ℕ) → slot (clear_slots s.instance_lookup_touched s.instance_lookup) i ≡ none
      cleared i =
          slot-clear_slots s.instance_lookup_touched s.instance_lookup i
          ∙ elim (Bool-cases (is_in i s.instance_lookup_touched)) [
            | inl t ↦ rw t
            | inr f ↦ rw f (h.untouched i f)
          ]

module _ {Name Inst : Type 0} (id_of : Inst → ℕ) where
  cache-Stands :
      (inst : Inst) (s : Registry Name Inst) (m : Maps Name Inst)
      → Stands s m
      → Stands
          (cache_instance id_of inst s)
          (record m { instances = put (id_of inst) inst m.instances })
  unfolding cache_instance ensure_entity_slot
  cache-Stands inst s m h = record {
    found = λ j.
        slot-append s.entity_registry (id_of inst + 1 - length s.entity_registry) j ∙ h.found j;
    cached = λ j. slot-set-grow s.instance_lookup (id_of inst) j inst ∙ rw (h.cached j);
    untouched = λ j k.
        slot-set-grow s.instance_lookup (id_of inst) j inst
        ∙ other (id_of inst == j) (is_in j s.instance_lookup_touched) k (h.untouched j);
  }
    where
      other :
          {o : Option Inst} (b c : Bool)
          → (b || c) ≡ false
          → (c ≡ false → o ≡ none)
          → (if b then some inst else o) ≡ none
      other true c k f = absurd (cc)
      other false c k f = f k

  cache_all-Stands :
      (is : List Inst) (s : Registry Name Inst) (m : Maps Name Inst)
      → Stands s m
      → Stands (cache_all id_of is s) (record m { instances = put_all id_of is m.instances })
  cache_all-Stands [] s m h = h
  cache_all-Stands (i ∷ is) s m h =
      cache_all-Stands is (cache_instance id_of i s) _ (cache-Stands i s m h)

  call-Stands :
      (c : Call Name Inst) (s : Registry Name Inst) (m : Maps Name Inst)
      → Stands s m
      → Stands (call id_of c s) (call_maps id_of c m)
  call-Stands (Call.registers i e) s m h = register-Stands i e s m h
  call-Stands (Call.refreshes statics dynamics) s m h =
      cache_all-Stands dynamics _ _ (cache_all-Stands statics _ _ (reset-Stands s m h))

  calls-Stands :
      (cs : List (Call Name Inst)) (s : Registry Name Inst) (m : Maps Name Inst)
      → Stands s m
      → Stands (calls id_of cs s) (calls_maps id_of cs m)
  calls-Stands [] s m h = h
  calls-Stands (c ∷ cs) s m h = calls-Stands cs (call id_of c s) _ (call-Stands c s m h)

abbrev pub empty_registry : {Name Inst : Type 0} → Registry Name Inst
empty_registry = record { entity_registry = []; instance_lookup = []; instance_lookup_touched = [] }

abbrev pub empty_maps : {Name Inst : Type 0} → Maps Name Inst
empty_maps = record { entities = λ i. none; instances = λ i. none }

module _ {Name Inst : Type 0} (id_of : Inst → ℕ) where
  -- After any registrations and refreshes of the cache, find_entity finds what was registered last
  -- under an id, and instance_for the last of the instances of the last refresh that has the id:
  -- no instance of an earlier refresh is left.
  pub registry_refines :
      (cs : List (Call Name Inst)) (i : ℕ)
      → (find_entity i (calls id_of cs empty_registry)
          ≡ (calls_maps id_of cs empty_maps).entities i)
        × (instance_for i (calls id_of cs empty_registry)
            ≡ (calls_maps id_of cs empty_maps).instances i)
  unfolding find_entity instance_for
  registry_refines cs i =
      let h = calls-Stands id_of cs empty_registry empty_maps start in (h.found i, h.cached i)
    where
      start : Stands {Name = Name} {Inst = Inst} empty_registry empty_maps
      start = record { found = λ i. refl; cached = λ i. refl; untouched = λ i k. refl }
