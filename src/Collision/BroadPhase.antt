-- ===== src/Collision/BroadPhase.antt =====
-- `BroadPhase::Impl` of libs/collision/src/broad_phase.cpp. Names are compared by `same`; the maps are
-- association lists, newest entry first; a model is the list of its parts. What poses do to points
-- and boxes is the parameter `Geometry`. The models of the dynamic instances stand beside them.
use ddrl_nav2d.Prelude.{
  ℕ, suc, ◌+◌, ◌*◌, ◌%◌, ◌^◌, max, Bool, true, false, ◌||◌, Option, none, some, List, [], ◌∷◌, ◌++◌,
  length, set, get_elem?, if◌then◌else◌, ◌==◌, leb,
}
use ddrl_nav2d.Collision.Bounds.{Double, Aabb2, Point2, merge, std_min, std_max}
use ddrl_nav2d.Collision.Tree.{Instance, Tlas, rebuild_tree}
use ddrl_nav2d.Collision.Query.{collect_overlaps}
use ddrl_nav2d.Collision.Refit.{LeafState, refit, update_leaf}

pub record Geometry (D : Double) : Type 1 where
  pub Pose : Type 0
  pub compose : Pose → Pose → Pose
  pub pos : Pose → Point2 D
  pub transform : Aabb2 D → Pose → Aabb2 D

-- A part of a `ModelProfile`, with `get_bounds` of its base.
pub record Part (D : Double) (G : Geometry D) : Type 0 where
  pub rel_pose : G.Pose
  pub base_bounds : Aabb2 D
  pub z_min : D.Real
  pub z_max : D.Real

pub record BoundsResult (D : Double) : Type 0 where
  pub bounds : Aabb2 D
  pub z_min : D.Real
  pub z_max : D.Real

-- `BroadPhase::Instance`
pub record Object {D : Double} (G : Geometry D) (Name : Type 0) : Type 0 where
  pub name : Name
  pub pose_world : G.Pose
  pub model_profile : Option (List (Part D G))
  pub is_static : Bool
  pub entity_id : ℕ

pub record Broad {D : Double} (G : Geometry D) (Name : Type 0) : Type 0 where
  pub static_tree : Tlas D G.Pose
  pub dynamic_tree : Tlas D G.Pose
  pub static_instances : List (Instance D G.Pose)
  pub dynamic_instances : List (Instance D G.Pose)
  pub dynamic_models : List (List (Part D G))
  pub dynamic_states : List (LeafState D G.Pose)
  pub static_lookup : List (Name × ℕ)
  pub dynamic_lookup : List (Name × ℕ)
  pub entity_to_dynamic_idx : List (ℕ × ℕ)
  pub dynamic_dirty : Bool
  pub next_entity_id : ℕ

module _ {D : Double} (G : Geometry D) where
  abbrev part_bounds : Part D G → G.Pose → BoundsResult D
  part_bounds p pose = record {
    bounds = G.transform p.base_bounds (G.compose pose p.rel_pose);
    z_min = p.z_min;
    z_max = p.z_max;
  }

  unfoldable pub merge_parts : BoundsResult D → List (Part D G) → G.Pose → BoundsResult D
  merge_parts r [] pose = r
  merge_parts r (p ∷ ps) pose =
      merge_parts
        (record {
          bounds = merge D r.bounds (part_bounds p pose).bounds;
          z_min = std_min D r.z_min p.z_min;
          z_max = std_max D r.z_max p.z_max;
        })
        ps pose

  unfoldable pub compute_bounds : List (Part D G) → G.Pose → BoundsResult D
  unfolding merge_parts
  compute_bounds [] pose = record {
    bounds = record { min = G.pos pose; max = G.pos pose };
    z_min = D.zero;
    z_max = D.zero;
  }
  compute_bounds (p ∷ ps) pose = merge_parts (part_bounds p pose) ps pose

  abbrev pub make_leaf_state : Instance D G.Pose → LeafState D G.Pose
  make_leaf_state i = record {
    world_from_model = i.world_from_model;
    bounds = i.bounds;
    z_min = i.z_min;
    z_max = i.z_max;
  }

  abbrev pub leaf_states : List (Instance D G.Pose) → List (LeafState D G.Pose)
  leaf_states [] = []
  leaf_states (i ∷ is) = make_leaf_state i ∷ leaf_states is

abbrev pub find_key {ℓ κ} : {K : Type ℓ} {V : Type κ} → (K → K → Bool) → K → List (K × V) → Option V
find_key same k [] = none
find_key same k ((k', v) ∷ rest) = if same k' k then some v else find_key same k rest

module _ {D : Double} (G : Geometry D) {Name : Type 0} (same : Name → Name → Bool)
    (nth_element : (ℕ → ℕ → Bool) → ℕ → List ℕ → List ℕ) where
  abbrev new_instance : List (Part D G) → Object G Name → Instance D G.Pose
  new_instance model o =
      let b = compute_bounds G model o.pose_world in
      record {
        has_model = true;
        has_blas = true;
        world_from_model = o.pose_world;
        bounds = b.bounds;
        z_min = b.z_min;
        z_max = b.z_max;
        entity_id = o.entity_id;
      }

  -- `init_instance_info` for an object with a model.
  unfoldable pub insert_instance : Object G Name → List (Part D G) → Broad G Name → Broad G Name
  unfolding compute_bounds
  insert_instance o model b =
      let i = new_instance model o in
      let n = length b.dynamic_instances in
      let state = make_leaf_state G i in
      if o.is_static
      then record b {
        static_instances = b.static_instances ++ (i ∷ []);
        static_lookup = (o.name, length b.static_instances) ∷ b.static_lookup;
      }
      else record b {
        dynamic_instances = b.dynamic_instances ++ (i ∷ []);
        dynamic_models = b.dynamic_models ++ (model ∷ []);
        dynamic_states =
            if leb (suc n) (length b.dynamic_states)
            then set b.dynamic_states n state
            else b.dynamic_states ++ (state ∷ []);
        dynamic_lookup = (o.name, n) ∷ b.dynamic_lookup;
        entity_to_dynamic_idx = (o.entity_id, n) ∷ b.entity_to_dynamic_idx;
        dynamic_dirty = true;
      }

  -- Whether the object was added; the next id is raised first in any case.
  unfoldable pub add_instance : Object G Name → Broad G Name → Bool × Broad G Name
  unfolding insert_instance
  add_instance o b =
      let b' : Broad G Name = record b {
        next_entity_id = max b.next_entity_id ((o.entity_id + 1) % 2 ^ 32);
      } in
      elim o.model_profile [ none ↦ (false, b') | some model ↦ (true, insert_instance o model b') ]

  abbrev capacity : List (Instance D G.Pose) → ℕ
  capacity is = 2 * length is

  unfoldable pub build : Broad G Name → Broad G Name
  build b = record b {
    static_tree = rebuild_tree D nth_element (capacity b.static_instances) b.static_instances;
    dynamic_tree = rebuild_tree D nth_element (capacity b.dynamic_instances) b.dynamic_instances;
    dynamic_dirty = false;
    dynamic_states = leaf_states G b.dynamic_instances;
  }

  -- Without instances `rebuild_tree` leaves the empty tree, which is also what the code assigns.
  unfoldable pub rebuild_statics : Broad G Name → Broad G Name
  rebuild_statics b = record b {
    static_tree = rebuild_tree D nth_element (capacity b.static_instances) b.static_instances;
  }

  unfoldable pub rebuild_dynamics : Broad G Name → Broad G Name
  rebuild_dynamics b = record b {
    dynamic_tree = rebuild_tree D nth_element (capacity b.dynamic_instances) b.dynamic_instances;
    dynamic_states = leaf_states G b.dynamic_instances;
    dynamic_dirty = false;
  }

  unfoldable pub refit_dynamics : ℕ → Broad G Name → Option (Broad G Name)
  refit_dynamics fuel b =
      if b.dynamic_dirty || length b.dynamic_states == 0
      then some b
      else elim (refit D fuel b.dynamic_tree b.dynamic_states) [
        | none ↦ none
        | some t ↦ some (record b { dynamic_tree = t })
      ]

  abbrev moved : Instance D G.Pose → G.Pose → BoundsResult D → Instance D G.Pose
  moved i pose r = record i {
    world_from_model = pose;
    bounds = r.bounds;
    z_min = r.z_min;
    z_max = r.z_max;
  }

  -- `update_dynamics` from the lookup of the index on.
  unfoldable pub update_at :
      ℕ → G.Pose → Broad G Name → ℕ → Instance D G.Pose → List (Part D G) → Option (Broad G Name)
  unfolding compute_bounds
  update_at fuel pose b index i model =
      let i' = moved i pose (compute_bounds G model pose) in
      let state = make_leaf_state G i' in
      let b' : Broad G Name = record b {
        dynamic_instances = set b.dynamic_instances index i';
        dynamic_states = set b.dynamic_states index state;
      } in
      if b.dynamic_dirty then some b' else elim (update_leaf D fuel b.dynamic_tree index state) [
        | none ↦ none
        | some t ↦ some (record b' { dynamic_tree = t })
      ]

  unfoldable pub update_dynamics : ℕ → ℕ → G.Pose → Broad G Name → Option (Broad G Name)
  unfolding update_at
  update_dynamics fuel entity_id pose b = elim (find_key ◌==◌ entity_id b.entity_to_dynamic_idx) [
    | none ↦ some b
    | some index ↦ elim (get_elem? b.dynamic_instances index) [
      | none ↦ some b
      | some i ↦ elim (get_elem? b.dynamic_models index) [
        | none ↦ some b
        | some model ↦ update_at fuel pose b index i model
      ]
    ]
  ]

  abbrev id_at : List (Instance D G.Pose) → Option ℕ → Option ℕ
  id_at is none = none
  id_at is (some index) = elim (get_elem? is index) [ none ↦ none | some i ↦ some i.entity_id ]

  abbrev or_else : Option ℕ → Option ℕ → Option ℕ
  or_else (some a) b = some a
  or_else none b = b

  -- The id of a name, static instances first.
  unfoldable pub entity_id : Name → Broad G Name → Option ℕ
  entity_id name b =
      or_else (id_at b.static_instances (find_key same name b.static_lookup))
        (id_at b.dynamic_instances (find_key same name b.dynamic_lookup))

  -- One of the two searches of `query_entity_ids`; its loop has twice the number of instances as fuel.
  unfoldable pub search_tree :
      Bool → List (Instance D G.Pose) → Tlas D G.Pose → Aabb2 D → List ℕ → Option (List ℕ)
  search_tree include [] tree query out = some out
  search_tree include (i ∷ is) tree query out =
      if include then collect_overlaps D (2 * length (i ∷ is)) tree query out else some out

  unfoldable pub query_entity_ids : Aabb2 D → Bool → Bool → Broad G Name → Option (List ℕ)
  unfolding search_tree
  query_entity_ids query include_static include_dynamic b =
      elim (search_tree include_static b.static_instances b.static_tree query []) [
        | none ↦ none
        | some hits ↦ search_tree include_dynamic b.dynamic_instances b.dynamic_tree query hits
      ]
