-- ===== src/Collision/Shape.antt =====
-- What a node vector of libs/collision/src/bvh.cpp stands for: a binary tree over leaf indices, and
-- the vector that holds it in preorder from a position on.
use ddrl_nav2d.Prelude.{
  ℕ, suc, ◌+◌, ◌*◌, ◌≤◌, ◌≡◌, refl, List, [], ◌∷◌, ◌++◌, length, set, length-append, arith,
}
use ddrl_nav2d.Collision.Bounds.{Double, Aabb2, merge}
use ddrl_nav2d.Collision.Tree.{Node, Instance, blank_node, bounds_at}

pub data Shape : Type 0 where
  leaf : ℕ → Shape
  branch : Shape → Shape → Shape

abbrev pub size : Shape → ℕ
size (Shape.leaf i) = 1
size (Shape.branch l r) = suc (size l + size r)

abbrev pub indices : Shape → List ℕ
indices (Shape.leaf i) = i ∷ []
indices (Shape.branch l r) = indices l ++ indices r

pub size-indices : (t : Shape) → suc (size t) ≡ 2 * length (indices t)
size-indices (Shape.leaf i) = refl
size-indices (Shape.branch l r) =
    omega (arith, size-indices l, size-indices r, length-append (indices l) (indices r))

pub size-pos : (t : Shape) → 1 ≤ size t
size-pos (Shape.leaf i) = omega arith
size-pos (Shape.branch l r) = omega arith

module _ (D : Double) {Pose : Type 0} (leaves : List (Instance D Pose)) where
  abbrev pub box : Shape → Aabb2 D
  box (Shape.leaf i) = bounds_at D leaves i
  box (Shape.branch l r) = merge D (box l) (box r)

  abbrev pub layout : Shape → ℕ → ℕ → List (Node D)
  layout (Shape.leaf i) k parent =
      record (blank_node D) { bounds = bounds_at D leaves i; parent = parent; leaf = i } ∷ []
  layout (Shape.branch l r) k parent =
      record (blank_node D) {
        bounds = merge D (box l) (box r);
        left = suc k;
        right = suc k + size l;
        parent = parent;
      }
      ∷ (layout l (suc k) k ++ layout r (suc k + size l) k)

  pub length-layout : (t : Shape) (k parent : ℕ) → length (layout t k parent) ≡ size t
  length-layout (Shape.leaf i) k parent = refl
  length-layout (Shape.branch l r) k parent = omega (
    arith,
    length-append (layout l (suc k) k) (layout r (suc k + size l) k),
    length-layout l (suc k) k,
    length-layout r (suc k + size l) k,
  )

-- The position of each leaf's node, written over a vector of positions.
abbrev pub assign : Shape → ℕ → List ℕ → List ℕ
assign (Shape.leaf i) k at = set at i k
assign (Shape.branch l r) k at = assign r (suc k + size l) (assign l (suc k) at)
