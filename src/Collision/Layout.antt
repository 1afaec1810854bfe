-- ===== src/Collision/Layout.antt =====
-- The node vector that `build_recursive` of libs/collision/src/bvh.cpp leaves, by the tree that it
-- holds.
use ddrl_nav2d.Prelude.{
  ℕ, suc, ◌+◌, ◌%◌, ◌^◌, ◌≤◌, ◌<◌, ◌≡◌, refl, List, [], ◌∷◌, ◌++◌, length, length-append,
  get_elem?-append, set-append, append_assoc, append-nil, sym, some, All, arith, false, leb, ◌==◌,
}
use ddrl_nav2d.Collision.Bounds.{Double, Aabb2, merge}
use ddrl_nav2d.Collision.Tree.{
  k_invalid, Node, Instance, blank_node, node_at, bounds_at, merge_range, close_node,
}
use ddrl_nav2d.Collision.Shape.{Shape, size, box, layout, length-layout, size-pos}

pub node_index-lt : (k : ℕ) → k < k_invalid → k % 2 ^ 32 ≡ k
node_index-lt k h = omega arith

-- A node as it is before its bounds are known.
abbrev pub opened : (D : Double) → ℕ → ℕ → ℕ → Node D
opened D parent left right = record (blank_node D) { parent = parent; left = left; right = right }

module _ (D : Double) {Pose : Type 0} (leaves : List (Instance D Pose)) where
  -- With every index in range the loop over the bounds reaches its end.
  pub merge_range-some :
      (b : Aabb2 D) (is : List ℕ)
      → All (λ i. i < length leaves) is
      → (b' : Aabb2 D) × (merge_range D leaves b is ≡ some b')
  unfolding merge_range
  merge_range-some b [] h = (b, refl)
  merge_range-some b (i ∷ is) h =
      let (b', e) = merge_range-some (merge D b (bounds_at D leaves i)) is h.1 in
      (b', ground (arith, e, h.0))

  -- The first node of a layout holds the box of its tree.
  pub bounds-layout :
      (xs : List (Node D)) (t : Shape) (k parent : ℕ) (zs : List (Node D))
      → (node_at D (xs ++ (layout D leaves t k parent ++ zs)) (length xs)).bounds ≡ box D leaves t
  bounds-layout xs (Shape.leaf i) k parent zs = rw get_elem?-append refl
  bounds-layout xs (Shape.branch l r) k parent zs = rw get_elem?-append refl

  bounds_at_position :
      (nodes xs zs : List (Node D)) (t : Shape) (k parent j : ℕ)
      → nodes ≡ xs ++ (layout D leaves t k parent ++ zs)
      → j ≡ length xs
      → (node_at D nodes j).bounds ≡ box D leaves t
  bounds_at_position nodes xs zs t k parent j e f = rw (e, f) (bounds-layout xs t k parent zs)

  pub close_branch :
      (ns : List (Node D)) (l r : Shape) (parent : ℕ) (at : List ℕ)
      → suc (length ns) + size l + size r ≤ k_invalid
      → let k = length ns in
        close_node D k (suc k) (suc k + size l) (record {
          nodes =
              ns
              ++ (opened D parent (suc k) (suc k + size l)
                  ∷ (layout D leaves l (suc k) k ++ layout D leaves r (suc k + size l) k));
          leaf_nodes = at;
        })
        ≡ (k, record { nodes = ns ++ layout D leaves (Shape.branch l r) k parent; leaf_nodes = at })
  unfolding close_node
  close_branch ns l r parent at h =
      let k = length ns in
      let L = layout D leaves l (suc k) k in
      let R = layout D leaves r (suc k + size l) k in
      let root = opened D parent (suc k) (suc k + size l) in
      let n : length (ns ++ (root ∷ (L ++ R))) ≡ suc k + size l + size r = omega (
        arith,
        length-append ns (root ∷ (L ++ R)),
        length-append L R,
        length-layout D leaves l (suc k) k,
        length-layout D leaves r (suc k + size l) k,
      ) in
      let ps = size-pos l in
      let qs = size-pos r in
      let a : (suc k == k_invalid) ≡ false = ground arith in
      let b : (suc k + size l == k_invalid) ≡ false = ground arith in
      let c : leb (suc k + size l + size r) (suc k) ≡ false = ground arith in
      let d : leb (suc k + size l + size r) (suc k + size l) ≡ false = ground arith in
      let below = ns ++ (root ∷ []) in
      let one : length below ≡ suc k = omega (arith, length-append ns (root ∷ [])) in
      let left =
        bounds_at_position (ns ++ (root ∷ (L ++ R))) below R l (suc k) k (suc k)
          (sym (append_assoc ns (root ∷ []) (L ++ R))) (sym one) in
      let right =
        bounds_at_position (ns ++ (root ∷ (L ++ R))) (below ++ L) [] r (suc k + size l) k
          (suc k + size l) (simp (append_assoc, append-nil))
          (omega (arith, one, length-append below L, length-layout D leaves l (suc k) k)) in
      rw (n, a, b, c, d, get_elem?-append, set-append, left, right, node_index-lt k (omega arith))
        refl
