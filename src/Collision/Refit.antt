-- ===== src/Collision/Refit.antt =====
-- `refit`, `update_leaf` and what they call, of libs/collision/src/bvh.cpp. The loops that climb to
-- the root run on fuel; `none` is a loop that has not ended.
use ddrl_nav2d.Prelude.{
  ℕ, zero, suc, Bool, true, false, not, ◌||◌, Option, none, some, List, [], ◌∷◌, ◌++◌, length, set,
  get_elem?, if◌then◌else◌, ◌==◌,
}
use ddrl_nav2d.Collision.Bounds.{Double, Aabb2, merge}
use ddrl_nav2d.Collision.Tree.{k_invalid, Node, Instance, Tlas, node_at, bounds_at, get_or}

-- `TLAS2::LeafState`
pub record LeafState (D : Double) (Pose : Type 0) : Type 0 where
  pub world_from_model : Pose
  pub bounds : Aabb2 D
  pub z_min : D.Real
  pub z_max : D.Real

module _ (D : Double) where
  abbrev set_bounds : List (Node D) → ℕ → Aabb2 D → List (Node D)
  set_bounds nodes i b = set nodes i (record (node_at D nodes i) { bounds = b })

  -- A node's bounds from those of its children.
  abbrev pub refresh : List (Node D) → ℕ → List (Node D)
  refresh nodes i =
      let n = node_at D nodes i in
      set_bounds nodes i (merge D (node_at D nodes n.left).bounds (node_at D nodes n.right).bounds)

  -- The loop of `refit_from_leaf`.
  unfoldable pub refresh_up : ℕ → List (Node D) → ℕ → Option (List (Node D))
  refresh_up zero nodes parent = if parent == k_invalid then some nodes else none
  refresh_up (suc fuel) nodes parent =
      let rest = refresh_up fuel (refresh nodes parent) (node_at D nodes parent).parent in
      if parent == k_invalid then some nodes else rest

  -- The loop of `refit_internal` from a node's parent up to a node that was visited: what it adds to
  -- `to_update`, and what is visited after it.
  unfoldable pub mark_up : ℕ → List (Node D) → ℕ → List Bool → List ℕ → Option (List Bool × List ℕ)
  mark_up zero nodes parent visited to_update =
      if parent == k_invalid || get_or D false (get_elem? visited parent)
      then some (visited, to_update)
      else none
  mark_up (suc fuel) nodes parent visited to_update =
      let rest =
        mark_up fuel nodes (node_at D nodes parent).parent (set visited parent true)
          (to_update ++ (parent ∷ [])) in
      if parent == k_invalid || get_or D false (get_elem? visited parent)
      then some (visited, to_update)
      else rest

  unfoldable pub mark_all : ℕ → List (Node D) → List ℕ → List Bool → List ℕ → Option (List ℕ)
  mark_all fuel nodes [] visited to_update = some to_update
  mark_all fuel nodes (k ∷ ks) visited to_update =
      let parent = if k == k_invalid then k_invalid else (node_at D nodes k).parent in
      elim (mark_up fuel nodes parent visited to_update) [
        | none ↦ none
        | some m ↦ mark_all fuel nodes ks m.0 m.1
      ]

  -- The nodes of `to_update`, the last one first.
  unfoldable pub refresh_reversed : List (Node D) → List ℕ → List (Node D)
  refresh_reversed nodes [] = nodes
  refresh_reversed nodes (i ∷ is) = refresh (refresh_reversed nodes is) i

  abbrev pub unvisited : List (Node D) → List Bool
  unvisited [] = []
  unvisited (n ∷ ns) = false ∷ unvisited ns

module _ (D : Double) {Pose : Type 0} where
  abbrev pub write_leaf : Instance D Pose → LeafState D Pose → Instance D Pose
  write_leaf l s = record l {
    world_from_model = s.world_from_model;
    bounds = s.bounds;
    z_min = s.z_min;
    z_max = s.z_max;
  }

  abbrev write_leaves : List (Instance D Pose) → List (LeafState D Pose) → List (Instance D Pose)
  write_leaves [] ss = []
  write_leaves (l ∷ ls) [] = l ∷ ls
  write_leaves (l ∷ ls) (s ∷ ss) = write_leaf l s ∷ write_leaves ls ss

  -- The first loop of `refit_internal`, from leaf `i` on.
  unfoldable pub write_leaf_nodes :
      List (Instance D Pose) → List ℕ → ℕ → List (Node D) → List (Node D)
  write_leaf_nodes leaves [] i nodes = nodes
  write_leaf_nodes leaves (k ∷ ks) i nodes =
      write_leaf_nodes leaves ks (suc i)
        (if k == k_invalid then nodes else set_bounds D nodes k (bounds_at D leaves i))

  unfoldable pub refit_internal : ℕ → Tlas D Pose → Option (Tlas D Pose)
  unfolding mark_all refresh_reversed write_leaf_nodes
  refit_internal fuel t =
      let nodes = write_leaf_nodes t.leaves t.leaf_nodes 0 t.nodes in
      if t.root == k_invalid
      then some t
      else elim (mark_all D fuel nodes t.leaf_nodes (unvisited D nodes) []) [
        | none ↦ none
        | some to_update ↦ some (record t { nodes = refresh_reversed D nodes to_update })
      ]

  unfoldable pub refit : ℕ → Tlas D Pose → List (LeafState D Pose) → Option (Tlas D Pose)
  unfolding refit_internal
  refit fuel t states =
      if not (length states == length t.leaves)
      then some t
      else refit_internal fuel (record t { leaves = write_leaves t.leaves states })

  unfoldable pub refit_from_leaf : ℕ → Tlas D Pose → ℕ → Option (Tlas D Pose)
  unfolding refresh_up
  refit_from_leaf fuel t i =
      let k = get_or D k_invalid (get_elem? t.leaf_nodes i) in
      let nodes = set_bounds D t.nodes k (bounds_at D t.leaves i) in
      if k == k_invalid then some t else elim (refresh_up D fuel nodes (node_at D nodes k).parent) [
        | none ↦ none
        | some nodes' ↦ some (record t { nodes = nodes' })
      ]

  unfoldable pub update_leaf : ℕ → Tlas D Pose → ℕ → LeafState D Pose → Option (Tlas D Pose)
  unfolding refit_from_leaf
  update_leaf fuel t i state = elim (get_elem? t.leaves i) [
    | none ↦ some t
    | some l ↦ refit_from_leaf fuel (record t { leaves = set t.leaves i (write_leaf l state) }) i
  ]
