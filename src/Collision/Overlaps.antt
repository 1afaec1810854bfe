-- ===== src/Collision/Overlaps.antt =====
-- `collect_overlaps` of libs/collision/src/broad_phase.cpp against a linear search.
use ddrl_nav2d.Prelude.{
  ℕ, suc, ◌*◌, ◌≤◌, ◌<◌, ◌≡◌, refl, sym, ap, ◌∙◌, subst, List, [], ◌∷◌, ◌++◌, length, range_from,
  get_elem?-append, length-append, append_assoc, append-nil, arith, true, false, Bool, Bool-cases,
  inl, inr, if◌then◌else◌, some,
}
use ddrl_nav2d.Prelude.Perms.{Permᴰ, append-Permᴰ, All-Permᴰ}
use mathlib.Core.List.Permᴰ
use ddrl_nav2d.Collision.Bounds.{
  Double, IsOrdered, Aabb2, merge, intersects, intersects-merge_left, intersects-merge_right,
}
use ddrl_nav2d.Collision.Tree.{k_invalid, Instance, Tlas, all_valid, rebuild_tree, bounds_at}
use ddrl_nav2d.Collision.Shape.{Shape, indices, box}
use ddrl_nav2d.Collision.Query.{entity_at, collect_overlaps, scan}
use ddrl_nav2d.Collision.Hits.{hits, hits-Empties, collect_loop-done}
use ddrl_nav2d.Collision.Rebuild.{Rebuilt, rebuild_tree-Rebuilt, range_from-lt}

module _ {D : Double} {Pose : Type 0} (leaves : List (Instance D Pose)) (query : Aabb2 D) where
  -- The entity of a leaf whose bounds meet the box.
  abbrev found : ℕ → List ℕ
  found i = if intersects D (bounds_at D leaves i) query then entity_at D leaves i ∷ [] else []

  abbrev select : List ℕ → List ℕ
  select [] = []
  select (i ∷ is) = found i ++ select is

  select-append : (is js : List ℕ) → select (is ++ js) ≡ select is ++ select js
  select-append [] js = refl
  select-append (i ∷ is) js = ground (arith, select-append is js)

  select-swap :
      (a b : ℕ) (xs : List ℕ) → Permᴰ (found a ++ (found b ++ xs)) (found b ++ (found a ++ xs))
  select-swap a b xs =
      rw (sym (append_assoc (found a) (found b) xs), sym (append_assoc (found b) (found a) xs))
        (Permᴰ.append_right xs (Permᴰ.append_comm (found a) (found b)))

  select-Permᴰ : {is js : List ℕ} → Permᴰ is js → Permᴰ (select is) (select js)
  select-Permᴰ Permᴰ.nil = Permᴰ.nil
  select-Permᴰ (Permᴰ.cons {a = a} e p) =
      append-Permᴰ (subst (λ i. Permᴰ (found a) (found i)) e (Permᴰ.refl (found a)))
        (select-Permᴰ p)
  select-Permᴰ (Permᴰ.swap {a = a} {b = b} {a' = a'} {b' = b'} {l = l} e f) =
      let from = found a ++ (found b ++ select l) in
      subst (λ j. Permᴰ from (found j ++ (found b' ++ select l))) f
        (subst (λ j. Permᴰ from (found b ++ (found j ++ select l))) e (select-swap a b (select l)))
  select-Permᴰ (Permᴰ.trans p q) = Permᴰ.trans (select-Permᴰ p) (select-Permᴰ q)

  -- A scan of the last leaves finds what their indices select.
  select-scan :
      (before after : List (Instance D Pose)) (i : ℕ)
      → leaves ≡ before ++ after
      → i ≡ length before
      → select (range_from i (length after)) ≡ scan D after query
  unfolding scan
  select-scan before [] i e f = refl
  select-scan before (l ∷ after) i e f = ground (
    arith,
    get_elem?-append before l after,
    select-scan (before ++ (l ∷ [])) after (suc i) (e ∙ sym (append_assoc before (l ∷ []) after))
        (omega (arith, length-append before (l ∷ []))),
    Bool-cases (intersects D l.bounds query),
  )

  module _ (ordered : IsOrdered D) where
    miss : (t : Shape) → intersects D (box D leaves t) query ≡ false → select (indices t) ≡ []
    miss (Shape.leaf i) h = rw h refl
    miss (Shape.branch l r) h =
        let a : intersects D (box D leaves l) query ≡ false =
          ground
            (arith, h, intersects-merge_left D ordered (box D leaves l) (box D leaves r) query) in
        let b : intersects D (box D leaves r) query ≡ false =
          ground
            (arith, h, intersects-merge_right D ordered (box D leaves l) (box D leaves r) query) in
        rw (select-append, miss l a, miss r b) refl

    hits-Permᴰ : (t : Shape) → Permᴰ (hits leaves query t) (select (indices t))
    hits-Permᴰ (Shape.leaf i) = rw append-nil (Permᴰ.refl (found i))
    hits-Permᴰ (Shape.branch l r) =
        elim (Bool-cases (intersects D (merge D (box D leaves l) (box D leaves r)) query)) [
          | inl t ↦
              rw (t, select-append)
                (Permᴰ.trans (append-Permᴰ (hits-Permᴰ r) (hits-Permᴰ l))
                  (Permᴰ.append_comm (select (indices r)) (select (indices l))))
          | inr n ↦ rw (n, miss (Shape.branch l r) n) Permᴰ.nil
        ]

module _ (D : Double) {Pose : Type 0} (nth_element : (ℕ → ℕ → Bool) → ℕ → List ℕ → List ℕ)
    (permutes : (cmp : ℕ → ℕ → Bool) (n : ℕ) (xs : List ℕ) → Permᴰ (nth_element cmp n xs) xs)
    (ordered : IsOrdered D) (capacity : ℕ) where
  abbrev pub Finds : List (Instance D Pose) → Tlas D Pose → Aabb2 D → List ℕ → Type 0
  Finds instances tree query out =
      (ids : List ℕ) × (collect_overlaps D (2 * length instances) tree query out
        ≡ some (out ++ ids))
      × Permᴰ ids (scan D instances query)

  Rebuilt-Finds :
      (instances : List (Instance D Pose)) (tree : Tlas D Pose) (query : Aabb2 D) (out : List ℕ)
      → 2 * length instances ≤ k_invalid
      → Rebuilt instances tree
      → Finds instances tree query out
  unfolding collect_overlaps
  Rebuilt-Finds instances tree query out small b =
      let n = length instances in
      let inside =
        All-Permᴰ (λ j. j < k_invalid) (Permᴰ.symm b.covers)
          (range_from-lt 0 n k_invalid (omega arith)) in
      let (g, le, e) =
        hits-Empties instances query tree.nodes b.shape 0 k_invalid (2 * n) 0 [] out b.linked
          b.boxed inside (omega arith) (omega arith) in
      (
        hits instances query b.shape,
        rw (b.root_first, b.same_leaves) (e ∙ collect_loop-done instances query tree.nodes g _),
        Permᴰ.trans (hits-Permᴰ instances query ordered b.shape) (
            subst (Permᴰ (select instances query (indices b.shape)))
              (select-scan instances query [] instances 0 refl refl)
              (select-Permᴰ instances query b.covers)),
      )

  -- On the tree that `rebuild_tree` makes of valid instances (or of none), with the capacity that
  -- `reserve` asks for, indices that fit 32 bits and bounds without NaN, `collect_overlaps` ends
  -- within twice as many steps as there are instances, and it appends to its output the entities of
  -- exactly the instances whose bounds meet the query, each as often as a linear search finds it.
  pub collect_overlaps_lem :
      (instances : List (Instance D Pose)) (query : Aabb2 D) (out : List ℕ)
      → all_valid D instances ≡ true
      → 2 * length instances ≤ capacity
      → 2 * length instances ≤ k_invalid
      → Finds instances (rebuild_tree D nth_element capacity instances) query out
  collect_overlaps_lem [] query out valid room small = (
    [],
    unfold collect_overlaps rebuild_tree in sym (ap some (append-nil out)),
    unfold scan in Permᴰ.nil,
  )
  collect_overlaps_lem (i ∷ is) query out valid room small =
      Rebuilt-Finds (i ∷ is) (rebuild_tree D nth_element capacity (i ∷ is)) query out small
        (rebuild_tree-Rebuilt D nth_element permutes capacity i is valid room small)
