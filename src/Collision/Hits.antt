-- ===== src/Collision/Hits.antt =====
-- The loop of `collect_overlaps` of libs/collision/src/broad_phase.cpp on a node vector that holds a
-- tree.
use ddrl_nav2d.Prelude.{
  ℕ, zero, suc, ◌+◌, ◌≤◌, ◌<◌, ◌≡◌, refl, ap, ◌∙◌, List, [], ◌∷◌, ◌++◌, append_assoc, append-nil,
  All, arith, true, false, if◌then◌else◌, ◌==◌, Bool-cases, inl, inr, Option, some,
  All-append_parts,
}
use ddrl_nav2d.Collision.Bounds.{Double, Aabb2, merge, intersects}
use ddrl_nav2d.Collision.Tree.{k_invalid, Node, Instance, node_at, bounds_at}
use ddrl_nav2d.Collision.Shape.{Shape, size, indices, box, size-pos}
use ddrl_nav2d.Collision.Query.{entity_at, visit, collect_loop}
use ddrl_nav2d.Collision.Traverse.{Linked, Boxed}

module _ {D : Double} {Pose : Type 0} (leaves : List (Instance D Pose)) (query : Aabb2 D) where
  -- What the loop finds below a node, in its order: the right child is popped first.
  abbrev pub hits : Shape → List ℕ
  hits (Shape.leaf i) =
      if intersects D (bounds_at D leaves i) query then entity_at D leaves i ∷ [] else []
  hits (Shape.branch l r) =
      if intersects D (merge D (box D leaves l) (box D leaves r)) query
      then hits r ++ hits l
      else []

  abbrev loop : List (Node D) → ℕ → List ℕ → List ℕ → Option (List ℕ)
  loop = collect_loop D leaves query

  visit-miss :
      (n : Node D) (stack out : List ℕ)
      → intersects D n.bounds query ≡ false
      → visit D leaves query n stack out ≡ (stack, out)
  unfolding visit
  visit-miss n stack out h = rw h refl

  visit-leaf :
      (n : Node D) (i : ℕ) (stack out : List ℕ)
      → intersects D n.bounds query ≡ true
      → n.leaf ≡ i
      → i < k_invalid
      → visit D leaves query n stack out ≡ (stack, out ++ (entity_at D leaves i ∷ []))
  unfolding visit
  visit-leaf n i stack out h e less =
      let a : (i == k_invalid) ≡ false = ground arith in rw (h, e, a) refl

  visit-branch :
      (n : Node D) (left right : ℕ) (stack out : List ℕ)
      → intersects D n.bounds query ≡ true
      → n.leaf ≡ k_invalid
      → n.left ≡ left
      → n.right ≡ right
      → left < k_invalid
      → right < k_invalid
      → visit D leaves query n stack out ≡ (right ∷ (left ∷ stack), out)
  unfolding visit
  visit-branch n left right stack out h e el er less less' = ground arith

  -- The loop empties a subtree from the stack within as many steps as it has nodes.
  abbrev Empties : List (Node D) → ℕ → ℕ → ℕ → List ℕ → List ℕ → List ℕ → Type 0
  Empties nodes m f k stack out found =
      (g : ℕ) × (f ≤ g) × (loop nodes m (k ∷ stack) out ≡ loop nodes g stack (out ++ found))

  step :
      (nodes : List (Node D)) (f k : ℕ) (stack out : List ℕ) (next : List ℕ × List ℕ)
      → visit D leaves query (node_at D nodes k) stack out ≡ next
      → loop nodes (suc f) (k ∷ stack) out ≡ loop nodes f next.0 next.1
  unfolding collect_loop
  step nodes f k stack out next e = ap (λ (next : List ℕ × List ℕ). loop nodes f next.0 next.1) e

  pub collect_loop-done :
      (nodes : List (Node D)) (f : ℕ) (out : List ℕ)
      → collect_loop D leaves query nodes f [] out ≡ some out
  unfolding collect_loop
  collect_loop-done nodes zero out = refl
  collect_loop-done nodes (suc f) out = refl

  Empties-miss :
      (nodes : List (Node D)) (m f k : ℕ) (stack out : List ℕ)
      → f ≤ m
      → intersects D (node_at D nodes k).bounds query ≡ false
      → Empties nodes (suc m) f k stack out []
  Empties-miss nodes m f k stack out le h = (
    m,
    le,
    rw append-nil
        (step nodes m k stack out (stack, out) (visit-miss (node_at D nodes k) stack out h)),
  )

  -- Both children, the right one first.
  Empties-both :
      (nodes : List (Node D)) (m m' f k left right : ℕ) (stack out ls rs : List ℕ)
      → visit D leaves query (node_at D nodes k) stack out ≡ (right ∷ (left ∷ stack), out)
      → Empties nodes m m' right (left ∷ stack) out rs
      → ((g : ℕ) → m' ≤ g → Empties nodes g f left stack (out ++ rs) ls)
      → Empties nodes (suc m) f k stack out (rs ++ ls)
  Empties-both nodes m m' f k left right stack out ls rs v (g, le, e) next =
      let (g', le', e') = next g le in
      (
        g',
        le',
        step nodes m k stack out (right ∷ (left ∷ stack), out) v
            ∙ e
            ∙ e'
            ∙ ap (loop nodes g' stack) (append_assoc out rs ls),
      )

  pub hits-Empties :
      (nodes : List (Node D)) (t : Shape) (k parent m f : ℕ) (stack out : List ℕ)
      → Linked nodes t k parent
      → Boxed leaves nodes t k
      → All (λ i. i < k_invalid) (indices t)
      → k + size t ≤ k_invalid
      → size t + f ≤ m
      → Empties nodes m f k stack out (hits t)
  hits-Empties nodes t k parent zero f stack out links boxes h fits enough =
      ground (arith, size-pos t)
  hits-Empties nodes (Shape.leaf i) k parent (suc m) f stack out links boxes h fits enough =
      elim (Bool-cases (intersects D (bounds_at D leaves i) query)) [
        | inl t ↦ (
          m,
          omega arith,
          rw t (
              step nodes m k stack out (stack, out ++ (entity_at D leaves i ∷ []))
                (visit-leaf (node_at D nodes k) i stack out (rw boxes t) links.0 h.0)),
        )
        | inr n ↦ rw n (Empties-miss nodes m f k stack out (omega arith) (rw boxes n))
      ]
  hits-Empties nodes (Shape.branch l r) k parent (suc m) f stack out links boxes h fits enough =
      let (hl, hr) = All-append_parts (λ i. i < k_invalid) (indices l) (indices r) h in
      let found =
        hits-Empties nodes r (suc k + size l) k m (size l + f) (suc k ∷ stack) out links.1.1
          boxes.1.1 hr (omega arith) (omega arith) in
      elim (Bool-cases (intersects D (merge D (box D leaves l) (box D leaves r)) query)) [
        | inl t ↦ rw t (
            Empties-both nodes m (size l + f) f k (suc k) (suc k + size l) stack out (hits l)
              (hits r)
              (visit-branch (node_at D nodes k) (suc k) (suc k + size l) stack out (rw boxes.0 t)
                links.0.0 links.0.2 links.0.3 (omega (arith, size-pos r))
                (omega (arith, size-pos r)))
              found
              (λ g le.
                hits-Empties nodes l (suc k) k g f stack (out ++ hits r) links.1.0 boxes.1.0 hl
                  (omega arith) (omega arith)))
        | inr n ↦ rw n (Empties-miss nodes m f k stack out (omega arith) (rw boxes.0 n))
      ]
