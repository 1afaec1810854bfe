-- ===== src/Collision/Tree.antt =====
-- `BVHNode2` and `TLAS2` of libs/collision/include/collision/bvh.hpp, and `rebuild_tree` of
-- libs/collision/src/bvh.cpp. Models and prebuilt BLASes are pointers, of which only null is told
-- apart; poses are only copied. `std::nth_element` is a parameter. `capacity` is what the node
-- vector has after `nodes.reserve`, at least twice the number of leaves. Reads go through
-- `node_at` and `bounds_at`, which give default values out of range.
use ddrl_nav2d.Prelude.{
  ℕ, zero, suc, ◌/◌, ◌%◌, ◌^◌, Bool, true, not, ◌&&◌, ◌||◌, Option, none, some, List, [], ◌∷◌, ◌++◌,
  length, set, take, drop, get_elem?, range_from, if◌then◌else◌, leb, ◌==◌,
}
use ddrl_nav2d.Collision.Bounds.{Double, Aabb2, no_bounds, center, merge, longest_axis}

-- `BVHNode2::kInvalid`
abbrev pub k_invalid : ℕ
k_invalid = 4294967295

pub record Node (D : Double) : Type 0 where
  pub bounds : Aabb2 D
  pub left : ℕ
  pub right : ℕ
  pub parent : ℕ
  pub leaf : ℕ

-- `TLAS2::Instance`, and `TLAS2::Leaf` with the same members.
pub record Instance (D : Double) (Pose : Type 0) : Type 0 where
  pub has_model : Bool
  pub has_blas : Bool
  pub world_from_model : Pose
  pub bounds : Aabb2 D
  pub z_min : D.Real
  pub z_max : D.Real
  pub entity_id : ℕ

pub record Tlas (D : Double) (Pose : Type 0) : Type 0 where
  pub nodes : List (Node D)
  pub leaves : List (Instance D Pose)
  pub leaf_nodes : List ℕ
  pub root : ℕ

-- What `build_recursive` changes.
pub record Build (D : Double) : Type 0 where
  pub nodes : List (Node D)
  pub leaf_nodes : List ℕ

abbrev pub replicate : ℕ → ℕ → List ℕ
replicate zero a = []
replicate (suc n) a = a ∷ replicate n a

abbrev pub to_uint32 : ℕ → ℕ
to_uint32 n = n % 2 ^ 32

module _ (D : Double) where
  -- `BVHNode2{}`
  abbrev pub blank_node : Node D
  blank_node = record {
    bounds = no_bounds D;
    left = k_invalid;
    right = k_invalid;
    parent = k_invalid;
    leaf = k_invalid;
  }

  abbrev pub get_or {ℓ} : {A : Type ℓ} → A → Option A → A
  get_or d none = d
  get_or d (some a) = a

  abbrev pub node_at : List (Node D) → ℕ → Node D
  node_at nodes i = get_or blank_node (get_elem? nodes i)

  -- The checks on the children, and the bounds of the node at position `k`.
  unfoldable pub close_node : ℕ → ℕ → ℕ → Build D → ℕ × Build D
  close_node k left right st =
      if left == k_invalid || right == k_invalid
      then (k_invalid, st)
      else if leb (length st.nodes) left || leb (length st.nodes) right
      then (k_invalid, st)
      else (
        to_uint32 k,
        record st {
          nodes = set st.nodes k (record (node_at st.nodes k) {
            bounds = merge D (node_at st.nodes left).bounds (node_at st.nodes right).bounds;
          });
        },
      )

module _ (D : Double) {Pose : Type 0} where
  abbrev pub empty_tlas : Tlas D Pose
  empty_tlas = record { nodes = []; leaves = []; leaf_nodes = []; root = k_invalid }

  abbrev bounds_of : Option (Instance D Pose) → Aabb2 D
  bounds_of none = no_bounds D
  bounds_of (some l) = l.bounds

  abbrev pub bounds_at : List (Instance D Pose) → ℕ → Aabb2 D
  bounds_at leaves i = bounds_of (get_elem? leaves i)

  -- The checks "Validate instances before building".
  unfoldable pub is_valid_instance : Instance D Pose → Bool
  is_valid_instance i =
      i.has_model
      && i.has_blas
      && not (D.lt i.bounds.max.x i.bounds.min.x || D.lt i.bounds.max.y i.bounds.min.y)
      && not (D.lt i.z_max i.z_min)

  unfoldable pub all_valid : List (Instance D Pose) → Bool
  unfolding is_valid_instance
  all_valid [] = true
  all_valid (i ∷ is) = is_valid_instance i && all_valid is

  -- The loop that merges the bounds of a range; `none` is an index out of range.
  unfoldable pub merge_range : List (Instance D Pose) → Aabb2 D → List ℕ → Option (Aabb2 D)
  merge_range leaves bounds [] = some bounds
  merge_range leaves bounds (i ∷ is) =
      let rest = merge_range leaves (merge D bounds (bounds_at leaves i)) is in
      if leb (length leaves) i then none else rest

  -- `cmp`: the order of the centres along an axis.
  unfoldable pub before : List (Instance D Pose) → ℕ → ℕ → ℕ → Bool
  before leaves axis lhs rhs =
      let lc = center D (bounds_at leaves lhs) in
      let rc = center D (bounds_at leaves rhs) in
      if axis == 0 then D.lt lc.x rc.x else D.lt lc.y rc.y

module _ (D : Double) {Pose : Type 0} (nth_element : (ℕ → ℕ → Bool) → ℕ → List ℕ → List ℕ)
    (capacity : ℕ) (leaves : List (Instance D Pose)) where
  -- The part of the body after `nth_element`, for the node at position `k`.
  unfoldable pub build_children :
      (List ℕ → ℕ → Build D → ℕ × Build D) → ℕ → ℕ → ℕ → List ℕ → Build D → ℕ × Build D
  build_children self k parent mid range st =
      let node : Node D = record (blank_node D) { parent = parent } in
      let (left, st₁) = self (take mid range) (to_uint32 k) st in
      let with_left : Build D = record st₁ {
        nodes = set st₁.nodes k (record node { left = left });
      } in
      let (right, st₂) = self (drop mid range) (to_uint32 k) with_left in
      close_node D k left right
        (record st₂ { nodes = set st₂.nodes k (record node { left = left; right = right }) })

  -- The body, which takes the function itself as `self`; an empty range is never passed.
  unfoldable pub build_body :
      (List ℕ → ℕ → Build D → ℕ × Build D) → List ℕ → ℕ → Build D → ℕ × Build D
  build_body self [] parent st = (k_invalid, st)
  build_body self (i ∷ []) parent st =
      let node_index = length st.nodes in
      let pushed = st.nodes ++ (record (blank_node D) { parent = parent } ∷ []) in
      if leb capacity node_index
      then (k_invalid, st)
      else if leb (length leaves) i
      then (k_invalid, record st { nodes = pushed })
      else (
        to_uint32 node_index,
        record {
          nodes =
              set pushed node_index (record (blank_node D) {
                parent = parent;
                bounds = bounds_at D leaves i;
                leaf = i;
              });
          leaf_nodes = set st.leaf_nodes i (to_uint32 node_index);
        },
      )
  build_body self (i ∷ (j ∷ rest)) parent st =
      let pushed : Build D = record st {
        nodes = st.nodes ++ (record (blank_node D) { parent = parent } ∷ []);
      } in
      let mid = length (i ∷ (j ∷ rest)) / 2 in
      if leb capacity (length st.nodes)
      then (k_invalid, st)
      else elim (merge_range D leaves (bounds_at D leaves i) (j ∷ rest)) [
        | none ↦ (k_invalid, pushed)
        | some bounds ↦
            build_children self (length st.nodes) parent mid
              (nth_element (before D leaves (longest_axis D bounds)) mid (i ∷ (j ∷ rest))) pushed
      ]

  -- The recursion is on fuel, the size of the range.
  unfoldable pub build_recursive : ℕ → List ℕ → ℕ → Build D → ℕ × Build D
  unfolding build_body
  build_recursive zero range parent st = (k_invalid, st)
  build_recursive (suc fuel) range parent st = build_body (build_recursive fuel) range parent st

  -- The tree over the leaves, once they are in place.
  unfoldable pub build_tree : Tlas D Pose
  unfolding build_recursive
  build_tree =
      let n = length leaves in
      let (root, st) =
        build_recursive n (range_from 0 n) k_invalid
          (record { nodes = []; leaf_nodes = replicate n k_invalid }) in
      record { nodes = st.nodes; leaves = leaves; leaf_nodes = st.leaf_nodes; root = root }

module _ (D : Double) {Pose : Type 0} (nth_element : (ℕ → ℕ → Bool) → ℕ → List ℕ → List ℕ)
    (capacity : ℕ) where
  -- `TLAS2::Impl::rebuild_tree`: no instance, or one that fails the checks, gives the empty tree.
  unfoldable pub rebuild_tree : List (Instance D Pose) → Tlas D Pose
  unfolding all_valid build_tree
  rebuild_tree [] = empty_tlas D
  rebuild_tree (i ∷ is) =
      if all_valid D (i ∷ is) then build_tree D nth_element capacity (i ∷ is) else empty_tlas D
