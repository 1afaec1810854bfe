-- ===== src/Collision/Rebuild.antt =====
-- What `TLAS2::Impl::rebuild_tree` of libs/collision/src/bvh.cpp leaves, for valid instances.
use ddrl_nav2d.Prelude.{
  ℕ, zero, suc, ◌+◌, ◌*◌, ◌≤◌, ◌<◌, ◌≡◌, refl, sym, ap, ◌∙◌, List, [], ◌∷◌, length, range_from,
  length-range_from, append-nil, All, arith, true, Bool,
}
use ddrl_nav2d.Prelude.Perms.{Permᴰ, length-Permᴰ}
use ddrl_nav2d.Collision.Bounds.{Double}
use ddrl_nav2d.Collision.Tree.{
  k_invalid, Build, Instance, Tlas, replicate, all_valid, build_tree, rebuild_tree,
}
use ddrl_nav2d.Collision.Shape.{Shape, indices, size, size-indices, layout, length-layout}
use ddrl_nav2d.Collision.Builds.{Built, build_recursive-Built}
use ddrl_nav2d.Collision.Traverse.{Linked, Boxed, layout-Linked}

-- A tree whose root is the node 0, over every instance once.
pub record Rebuilt {D : Double} {Pose : Type 0} (instances : List (Instance D Pose))
    (tree : Tlas D Pose) : Type 0 where
  pub shape : Shape
  pub covers : Permᴰ (indices shape) (range_from 0 (length instances))
  pub root_first : tree.root ≡ 0
  pub same_leaves : tree.leaves ≡ instances
  pub node_count : suc (length tree.nodes) ≡ 2 * length instances
  pub size_nodes : size shape ≡ length tree.nodes
  pub linked : Linked tree.nodes shape 0 k_invalid
  pub boxed : Boxed instances tree.nodes shape 0

pub range_from-lt : (i n m : ℕ) → i + n ≤ m → All (λ j. j < m) (range_from i n)
range_from-lt i zero m h = tt
range_from-lt i (suc n) m h = (omega arith, range_from-lt (suc i) n m (omega arith))

Built-Rebuilt :
    (D : Double) {Pose : Type 0} (instances : List (Instance D Pose)) (at : List ℕ)
    (out : ℕ × Build D)
    → Built D instances 0
        (range_from 0 (length instances))
        k_invalid
        (record { nodes = []; leaf_nodes = at })
        out
    → Rebuilt instances (record {
      nodes = out.1.nodes;
      leaves = instances;
      leaf_nodes = out.1.leaf_nodes;
      root = out.0;
    })
Built-Rebuilt D instances at out b =
    let nodes : out.1.nodes ≡ layout D instances b.tree 0 k_invalid =
      ap (λ (o : ℕ × Build D). o.1.nodes) b.result in
    let n : length out.1.nodes ≡ size b.tree =
      ap length nodes ∙ length-layout D instances b.tree 0 k_invalid in
    let (linked, boxed) =
      layout-Linked instances b.tree out.1.nodes [] [] 0 k_invalid
        (nodes ∙ sym (append-nil (layout D instances b.tree 0 k_invalid))) refl in
    record {
      shape = b.tree;
      covers = b.covers;
      root_first = ap (λ (o : ℕ × Build D). o.0) b.result;
      same_leaves = refl;
      node_count = omega (
        arith,
        n,
        size-indices b.tree,
        length-Permᴰ b.covers,
        length-range_from 0 (length instances),
      );
      size_nodes = sym n;
      linked = linked;
      boxed = boxed;
    }

module _ (D : Double) {Pose : Type 0} (nth_element : (ℕ → ℕ → Bool) → ℕ → List ℕ → List ℕ)
    (permutes : (cmp : ℕ → ℕ → Bool) (n : ℕ) (xs : List ℕ) → Permᴰ (nth_element cmp n xs) xs)
    (capacity : ℕ) where
  build_tree-Rebuilt :
      (i : Instance D Pose) (is : List (Instance D Pose))
      → 2 * length (i ∷ is) ≤ capacity
      → 2 * length (i ∷ is) ≤ k_invalid
      → Rebuilt (i ∷ is) (build_tree D nth_element capacity (i ∷ is))
  unfolding build_tree
  build_tree-Rebuilt i is room small =
      let n = length (i ∷ is) in
      let c = length-range_from 0 n in
      Built-Rebuilt D (i ∷ is) _ _ (
        build_recursive-Built D nth_element capacity (i ∷ is) permutes n (range_from 0 n) k_invalid
          0 (record { nodes = []; leaf_nodes = replicate n k_invalid }) (omega arith) (omega arith)
          (range_from-lt 0 n n (omega arith)) refl (omega arith, omega arith))

  -- For a non-empty list of valid instances, with the capacity that `reserve` asks for and indices
  -- that fit 32 bits, `rebuild_tree` never takes an error path: the root is node 0, there are
  -- `2 * n - 1` nodes, their children, parents and leaves link them as one tree that holds every
  -- instance exactly once, and each node's bounds are the merge of its children's.
  pub rebuild_tree-Rebuilt :
      (i : Instance D Pose) (is : List (Instance D Pose))
      → all_valid D (i ∷ is) ≡ true
      → 2 * length (i ∷ is) ≤ capacity
      → 2 * length (i ∷ is) ≤ k_invalid
      → Rebuilt (i ∷ is) (rebuild_tree D nth_element capacity (i ∷ is))
  unfolding rebuild_tree
  rebuild_tree-Rebuilt i is valid room small = rw valid (build_tree-Rebuilt i is room small)
