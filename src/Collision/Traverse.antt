-- ===== src/Collision/Traverse.antt =====
-- A node vector of libs/collision/src/bvh.cpp read as a tree: its links and its bounds.
use ddrl_nav2d.Prelude.{
  ℕ, suc, ◌+◌, ◌≡◌, refl, ap, ◌∙◌, List, [], ◌∷◌, ◌++◌, length, length-append, get_elem?-append,
  append_assoc, arith,
}
use ddrl_nav2d.Collision.Bounds.{Double, merge}
use ddrl_nav2d.Collision.Tree.{k_invalid, Node, Instance, node_at, bounds_at}
use ddrl_nav2d.Collision.Shape.{Shape, size, box, layout, length-layout}

-- The nodes from position `k` on are linked as a tree.
abbrev pub Linked : {D : Double} → List (Node D) → Shape → ℕ → ℕ → Type 0
Linked {D} nodes (Shape.leaf i) k parent =
    ((node_at D nodes k).leaf ≡ i) × ((node_at D nodes k).parent ≡ parent)
Linked {D} nodes (Shape.branch l r) k parent =
    (((node_at D nodes k).leaf ≡ k_invalid)
      × ((node_at D nodes k).parent ≡ parent)
      × ((node_at D nodes k).left ≡ suc k)
      × ((node_at D nodes k).right ≡ suc k + size l))
    × (Linked nodes l (suc k) k × Linked nodes r (suc k + size l) k)

module _ {D : Double} {Pose : Type 0} (leaves : List (Instance D Pose)) where
  -- Each of them holds the box of its tree.
  abbrev pub Boxed : List (Node D) → Shape → ℕ → Type 0
  Boxed nodes (Shape.leaf i) k = (node_at D nodes k).bounds ≡ bounds_at D leaves i
  Boxed nodes (Shape.branch l r) k =
      ((node_at D nodes k).bounds ≡ merge D (box D leaves l) (box D leaves r))
      × (Boxed nodes l (suc k) × Boxed nodes r (suc k + size l))

  pub layout-Linked :
      (t : Shape) (nodes xs zs : List (Node D)) (k parent : ℕ)
      → nodes ≡ xs ++ (layout D leaves t k parent ++ zs)
      → k ≡ length xs
      → Linked nodes t k parent × Boxed nodes t k
  layout-Linked (Shape.leaf i) nodes xs zs k parent e f =
      (rw (e, f, get_elem?-append) (refl, refl), rw (e, f, get_elem?-append) refl)
  layout-Linked (Shape.branch l r) nodes xs zs k parent e f =
      let L = layout D leaves l (suc k) k in
      let R = layout D leaves r (suc k + size l) k in
      let root : Node D = record {
        bounds = merge D (box D leaves l) (box D leaves r);
        left = suc k;
        right = suc k + size l;
        parent = parent;
        leaf = k_invalid;
      } in
      let below = xs ++ (root ∷ []) in
      let one : suc k ≡ length below = omega (arith, length-append xs (root ∷ [])) in
      let hl = layout-Linked l nodes below (R ++ zs) (suc k) k (e ∙ simp (append_assoc)) one in
      let hr =
        layout-Linked r nodes (below ++ L) zs (suc k + size l) k (e ∙ simp (append_assoc))
          (omega (arith, length-append below L, length-layout D leaves l (suc k) k)) in
      let head : node_at D nodes k ≡ root = rw (e, f, get_elem?-append) refl in
      (
        (
          (
            ap (λ (n : Node D). n.leaf) head,
            ap (λ (n : Node D). n.parent) head,
            ap (λ (n : Node D). n.left) head,
            ap (λ (n : Node D). n.right) head,
          ),
          (hl.0, hr.0),
        ),
        (ap (λ (n : Node D). n.bounds) head, (hl.1, hr.1)),
      )
