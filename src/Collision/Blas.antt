-- ===== src/Collision/Blas.antt =====
-- `BLAS2::Impl::build_from` of libs/collision/src/bvh.cpp: the tree over the parts of one model. What
-- a pose does to a point is the parameter `transform_point`, `get_bounds` stands in a part, and
-- `std::nth_element` is a parameter as for `TLAS2`. Unlike `rebuild_tree` it has no checks.
use ddrl_nav2d.Prelude.{
  ℕ, zero, suc, ◌/◌, Bool, List, [], ◌∷◌, ◌++◌, length, set, take, drop, get_elem?, range_from,
  if◌then◌else◌, ◌==◌,
}
use ddrl_nav2d.Collision.Bounds.{
  Double, Point2, Aabb2, no_bounds, std_min, std_max, center, merge, longest_axis,
}
use ddrl_nav2d.Collision.Tree.{k_invalid, Node, blank_node, node_at, get_or, to_uint32}

-- `BLAS2::Leaf`
pub record BlasLeaf (D : Double) : Type 0 where
  pub bounds : Aabb2 D
  pub z_min : D.Real
  pub z_max : D.Real
  pub part_index : ℕ

pub record ModelPart (D : Double) (Pose : Type 0) : Type 0 where
  pub rel_pose : Pose
  pub base_bounds : Aabb2 D
  pub z_min : D.Real
  pub z_max : D.Real

pub record Blas (D : Double) : Type 0 where
  pub nodes : List (Node D)
  pub leaves : List (BlasLeaf D)
  pub root : ℕ

module _ (D : Double) {Pose : Type 0} (transform_point : Pose → Point2 D → Point2 D) where
  -- The body of the loop over the corners.
  abbrev pub include_point : Aabb2 D → Point2 D → Aabb2 D
  include_point b p = record {
    min = record { x = std_min D p.x b.min.x; y = std_min D p.y b.min.y };
    max = record { x = std_max D p.x b.max.x; y = std_max D p.y b.max.y };
  }

  unfoldable pub transform_bounds : Aabb2 D → Pose → Aabb2 D
  transform_bounds b pose =
      let first = transform_point pose (record { x = b.min.x; y = b.min.y }) in
      let out : Aabb2 D = record { min = first; max = first } in
      include_point
        (include_point
          (include_point out (transform_point pose (record { x = b.min.x; y = b.max.y })))
          (transform_point pose (record { x = b.max.x; y = b.min.y })))
        (transform_point pose (record { x = b.max.x; y = b.max.y }))

  -- The loop over the parts, from index `idx` on.
  unfoldable pub part_leaves : ℕ → List (ModelPart D Pose) → List (BlasLeaf D)
  unfolding transform_bounds
  part_leaves idx [] = []
  part_leaves idx (p ∷ ps) =
      record {
        bounds = transform_bounds p.base_bounds p.rel_pose;
        z_min = p.z_min;
        z_max = p.z_max;
        part_index = to_uint32 idx;
      }
      ∷ part_leaves (suc idx) ps

module _ (D : Double) (nth_element : (ℕ → ℕ → Bool) → ℕ → List ℕ → List ℕ)
    (leaves : List (BlasLeaf D)) where
  abbrev blank_leaf : BlasLeaf D
  blank_leaf = record { bounds = no_bounds D; z_min = D.zero; z_max = D.zero; part_index = 0 }

  abbrev leaf_bounds : ℕ → Aabb2 D
  leaf_bounds i = (get_or D blank_leaf (get_elem? leaves i)).bounds

  abbrev merge_all : Aabb2 D → List ℕ → Aabb2 D
  merge_all b [] = b
  merge_all b (i ∷ is) = merge_all (merge D b (leaf_bounds i)) is

  abbrev before_leaf : ℕ → ℕ → ℕ → Bool
  before_leaf axis lhs rhs =
      let lc = center D (leaf_bounds lhs) in
      let rc = center D (leaf_bounds rhs) in if axis == 0 then D.lt lc.x rc.x else D.lt lc.y rc.y

  -- The two halves of a range, for the node at position `k`.
  unfoldable pub build_parts_children :
      (List ℕ → ℕ → List (Node D) → ℕ × List (Node D))
      → ℕ
      → ℕ
      → ℕ
      → List ℕ
      → List (Node D)
      → ℕ × List (Node D)
  build_parts_children self k parent mid range nodes =
      let node : Node D = record (blank_node D) { parent = parent } in
      let (left, nodes₁) = self (take mid range) (to_uint32 k) nodes in
      let (right, nodes₂) =
        self (drop mid range) (to_uint32 k) (set nodes₁ k (record node { left = left })) in
      (
        to_uint32 k,
        set nodes₂ k (record node {
          left = left;
          right = right;
          bounds = merge D (node_at D nodes₂ left).bounds (node_at D nodes₂ right).bounds;
        }),
      )

  -- The body, which takes the function itself as `self`; an empty range is never passed.
  unfoldable pub build_parts_body :
      (List ℕ → ℕ → List (Node D) → ℕ × List (Node D))
      → List ℕ
      → ℕ
      → List (Node D)
      → ℕ × List (Node D)
  build_parts_body self [] parent nodes = (k_invalid, nodes)
  build_parts_body self (i ∷ []) parent nodes = (
    to_uint32 (length nodes),
    nodes ++ (record (blank_node D) { parent = parent; bounds = leaf_bounds i; leaf = i } ∷ []),
  )
  build_parts_body self (i ∷ (j ∷ rest)) parent nodes =
      let mid = length (i ∷ (j ∷ rest)) / 2 in
      let axis = longest_axis D (merge_all (leaf_bounds i) (j ∷ rest)) in
      build_parts_children self (length nodes) parent mid
        (nth_element (before_leaf axis) mid (i ∷ (j ∷ rest)))
        (nodes ++ (record (blank_node D) { parent = parent } ∷ []))

  -- The recursion is on fuel, the size of the range.
  unfoldable pub build_parts : ℕ → List ℕ → ℕ → List (Node D) → ℕ × List (Node D)
  unfolding build_parts_body
  build_parts zero range parent nodes = (k_invalid, nodes)
  build_parts (suc fuel) range parent nodes = build_parts_body (build_parts fuel) range parent nodes

module _ (D : Double) {Pose : Type 0} (transform_point : Pose → Point2 D → Point2 D)
    (nth_element : (ℕ → ℕ → Bool) → ℕ → List ℕ → List ℕ) where
  unfoldable pub build_from : List (ModelPart D Pose) → Blas D
  unfolding part_leaves build_parts
  build_from [] = record { nodes = []; leaves = []; root = k_invalid }
  build_from (p ∷ ps) =
      let leaves = part_leaves D transform_point 0 (p ∷ ps) in
      let (root, nodes) =
        build_parts D nth_element leaves (length leaves) (range_from 0 (length leaves)) k_invalid
          [] in
      record { nodes = nodes; leaves = leaves; root = root }
