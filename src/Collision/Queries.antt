-- ===== src/Collision/Queries.antt =====
-- `build` and `query_entity_ids` of libs/collision/src/broad_phase.cpp together.
use ddrl_nav2d.Prelude.{
  ℕ, ◌*◌, ◌≤◌, ◌≡◌, sym, ap, Bool, true, some, List, [], ◌∷◌, ◌++◌, length, append-nil, arith,
}
use ddrl_nav2d.Prelude.Perms.{Permᴰ, append-Permᴰ}
use ddrl_nav2d.Collision.Bounds.{Double, IsOrdered, Aabb2}
use ddrl_nav2d.Collision.Tree.{k_invalid, Instance, all_valid, rebuild_tree}
use ddrl_nav2d.Collision.Query.{scan}
use ddrl_nav2d.Collision.Overlaps.{collect_overlaps_lem}
use ddrl_nav2d.Collision.BroadPhase.{Geometry, Broad, build, search_tree, query_entity_ids}

module _ (D : Double) (G : Geometry D) (nth_element : (ℕ → ℕ → Bool) → ℕ → List ℕ → List ℕ)
    (permutes : (cmp : ℕ → ℕ → Bool) (n : ℕ) (xs : List ℕ) → Permᴰ (nth_element cmp n xs) xs)
    (ordered : IsOrdered D) {Name : Type 0} (same : Name → Name → Bool) where
  search_tree-finds :
      (is : List (Instance D G.Pose)) (query : Aabb2 D) (out : List ℕ)
      → all_valid D is ≡ true
      → 2 * length is ≤ k_invalid
      → (ids : List ℕ) × (search_tree G same nth_element true is
            (rebuild_tree D nth_element (2 * length is) is)
            query
            out
          ≡ some (out ++ ids))
        × Permᴰ ids (scan D is query)
  unfolding search_tree
  search_tree-finds [] query out valid small =
      ([], ap some (sym (append-nil out)), unfold scan in Permᴰ.nil)
  search_tree-finds (i ∷ is) query out valid small =
      collect_overlaps_lem D nth_element permutes ordered (2 * length (i ∷ is)) (i ∷ is) query out
        valid (omega arith) small

  -- After `build`, with valid instances whose tree indices fit 32 bits and bounds without NaN, a
  -- query that includes both kinds ends and returns the entities of exactly the static and dynamic
  -- instances whose bounds meet the box, each as often as a linear search finds it.
  pub query_entity_ids_lem :
      (b : Broad G Name) (query : Aabb2 D)
      → all_valid D b.static_instances ≡ true
      → all_valid D b.dynamic_instances ≡ true
      → 2 * length b.static_instances ≤ k_invalid
      → 2 * length b.dynamic_instances ≤ k_invalid
      → (ids : List ℕ) × (query_entity_ids G same nth_element query true true
            (build G same nth_element b)
          ≡ some ids)
        × Permᴰ ids (scan D b.static_instances query ++ scan D b.dynamic_instances query)
  unfolding query_entity_ids build
  query_entity_ids_lem b query vs vd ss sd =
      let (statics, es, ps) = search_tree-finds b.static_instances query [] vs ss in
      let (dynamics, ed, pd) = search_tree-finds b.dynamic_instances query statics vd sd in
      (statics ++ dynamics, rw (query_entity_ids, es) ed, append-Permᴰ ps pd)
