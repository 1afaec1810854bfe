-- ===== src/Sim/World/Entities.antt =====
-- The entity registry and the cache of instances of `World::Impl` of libs/sim/src/world.cpp, over
-- instances of which `id_of` reads the entity. A null pointer or an empty slot is `none`.
pub mod Refine
use ddrl_nav2d.Prelude.{
  ℕ, zero, suc, ◌+◌, ◌-◌, Option, none, some, List, [], ◌∷◌, ◌++◌, length, get_elem?, set,
}

-- `EntityRef::Type`
pub data EntityType : Type 0 where
  static_entity : EntityType
  dynamic_entity : EntityType
  robot_entity : EntityType

pub record EntityRef (Name : Type 0) : Type 0 where
  pub entity_type : EntityType
  pub index : ℕ
  pub name : Name

abbrev pub blanks : {A : Type 0} → ℕ → List (Option A)
blanks zero = []
blanks (suc n) = none ∷ blanks n

-- `resize`, if it makes the vector larger.
abbrev pub grow : {A : Type 0} → ℕ → List (Option A) → List (Option A)
grow n xs = xs ++ blanks (n - length xs)

abbrev pub join : {A : Type 0} → Option (Option A) → Option A
join none = none
join (some o) = o

abbrev pub slot : {A : Type 0} → List (Option A) → ℕ → Option A
slot xs i = join (get_elem? xs i)

unfoldable pub clear_slots : {A : Type 0} → List ℕ → List (Option A) → List (Option A)
clear_slots [] l = l
clear_slots (i ∷ is) l = clear_slots is (set l i none)

pub record Registry (Name Inst : Type 0) : Type 0 where
  pub entity_registry : List (Option (EntityRef Name))
  pub instance_lookup : List (Option Inst)
  pub instance_lookup_touched : List ℕ

module _ {Name Inst : Type 0} where
  unfoldable pub ensure_entity_slot : ℕ → Registry Name Inst → Registry Name Inst
  ensure_entity_slot entity_id s = record s {
    entity_registry = grow (entity_id + 1) s.entity_registry;
    instance_lookup = grow (entity_id + 1) s.instance_lookup;
  }

  unfoldable pub register_entity : ℕ → EntityRef Name → Registry Name Inst → Registry Name Inst
  register_entity entity_id entity s =
      let t = ensure_entity_slot entity_id s in
      record t { entity_registry = set t.entity_registry entity_id (some entity) }

  unfoldable pub find_entity : ℕ → Registry Name Inst → Option (EntityRef Name)
  find_entity entity_id s = slot s.entity_registry entity_id

  unfoldable pub reset_instance_cache : Registry Name Inst → Registry Name Inst
  reset_instance_cache s = record s {
    instance_lookup = clear_slots s.instance_lookup_touched s.instance_lookup;
    instance_lookup_touched = [];
  }

  unfoldable pub instance_for : ℕ → Registry Name Inst → Option Inst
  instance_for entity_id s = slot s.instance_lookup entity_id

module _ {Name Inst : Type 0} (id_of : Inst → ℕ) where
  unfoldable pub cache_instance : Inst → Registry Name Inst → Registry Name Inst
  cache_instance inst s =
      let t = ensure_entity_slot (id_of inst) s in
      record t {
        instance_lookup = set t.instance_lookup (id_of inst) (some inst);
        instance_lookup_touched = id_of inst ∷ t.instance_lookup_touched;
      }

  abbrev pub cache_all : List Inst → Registry Name Inst → Registry Name Inst
  cache_all [] s = s
  cache_all (i ∷ is) s = cache_all is (cache_instance i s)

  -- What `run_collisions_detection` does of the cache, with the static and the dynamic instances.
  abbrev pub refresh : List Inst → List Inst → Registry Name Inst → Registry Name Inst
  refresh statics dynamics s = cache_all dynamics (cache_all statics (reset_instance_cache s))
