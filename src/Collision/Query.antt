-- ===== src/Collision/Query.antt =====
-- `collect_overlaps` of libs/collision/src/broad_phase.cpp: the entities whose bounds may meet a box.
-- The loop over the stack runs on fuel; `none` is a loop that has not ended.
use ddrl_nav2d.Prelude.{
  ℕ, zero, suc, Bool, not, Option, none, some, List, [], ◌∷◌, ◌++◌, get_elem?, if◌then◌else◌, ◌==◌,
}
use ddrl_nav2d.Collision.Bounds.{Double, Aabb2, intersects}
use ddrl_nav2d.Collision.Tree.{k_invalid, Node, Instance, Tlas, node_at}

module _ (D : Double) where
  -- `BVHNode2::is_leaf`
  abbrev pub is_leaf : Node D → Bool
  is_leaf n = not (n.leaf == k_invalid)

module _ (D : Double) {Pose : Type 0} where
  abbrev id_of : Option (Instance D Pose) → ℕ
  id_of none = 0
  id_of (some l) = l.entity_id

  abbrev pub entity_at : List (Instance D Pose) → ℕ → ℕ
  entity_at leaves i = id_of (get_elem? leaves i)

module _ (D : Double) {Pose : Type 0} (leaves : List (Instance D Pose)) (query : Aabb2 D) where
  abbrev push_child : ℕ → List ℕ → List ℕ
  push_child i stack = if i == k_invalid then stack else i ∷ stack

  -- The body of the loop for a node just popped: the stack and the output after it.
  unfoldable pub visit : Node D → List ℕ → List ℕ → List ℕ × List ℕ
  unfolding intersects
  visit node stack out =
      if not (intersects D node.bounds query)
      then (stack, out)
      else if is_leaf D node
      then (stack, out ++ (entity_at D leaves node.leaf ∷ []))
      else (push_child node.right (push_child node.left stack), out)

  unfoldable pub collect_loop : List (Node D) → ℕ → List ℕ → List ℕ → Option (List ℕ)
  collect_loop nodes fuel [] out = some out
  collect_loop nodes zero (i ∷ stack) out = none
  collect_loop nodes (suc fuel) (i ∷ stack) out =
      let (stack', out') = visit (node_at D nodes i) stack out in
      collect_loop nodes fuel stack' out'

module _ (D : Double) {Pose : Type 0} where
  unfoldable pub collect_overlaps : ℕ → Tlas D Pose → Aabb2 D → List ℕ → Option (List ℕ)
  collect_overlaps fuel tree query out =
      if tree.root == k_invalid
      then some out
      else collect_loop D tree.leaves query tree.nodes fuel (tree.root ∷ []) out

  -- What a linear search finds: the entities of the leaves whose bounds meet the box, in order.
  unfoldable pub scan : List (Instance D Pose) → Aabb2 D → List ℕ
  unfolding intersects
  scan [] query = []
  scan (l ∷ ls) query =
      if intersects D l.bounds query then l.entity_id ∷ scan ls query else scan ls query
