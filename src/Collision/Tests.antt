-- ===== src/Collision/Tests.antt =====
-- The tree of libs/collision on three instances, with natural numbers for coordinates.
use ddrl_nav2d.Prelude.{
  ℕ, ◌+◌, ◌-◌, ◌*◌, ◌≡◌, refl, List, [], ◌∷◌, true, Bool, Option, none, some, ◌++◌, ◌==◌, ltb, leb,
  arith,
}
use ddrl_nav2d.Prelude.Perms.{Permᴰ}
use mathlib.Core.List.Permᴰ
use ddrl_nav2d.Collision.Bounds.{
  Double, IsOrdered, Aabb2, merge, std_min, std_max, intersects, longest_axis,
}
use ddrl_nav2d.Collision.Tree.{
  Instance, Tlas, empty_tlas, all_valid, rebuild_tree, build_tree, build_recursive, build_body,
  build_children, close_node, merge_range, before,
}
use ddrl_nav2d.Collision.Query.{scan, collect_overlaps, collect_loop, visit}
use ddrl_nav2d.Collision.Refit.{
  LeafState, refit, refit_internal, mark_all, mark_up, refresh_reversed, write_leaf_nodes,
  update_leaf, refit_from_leaf, refresh_up,
}
use ddrl_nav2d.Collision.BroadPhase.{Geometry, Broad, build, query_entity_ids, leaf_states}
use ddrl_nav2d.Collision.Masks.{CollisionFilter}
use ddrl_nav2d.Collision.Queries.{query_entity_ids_lem}
use ddrl_nav2d.Collision.Overlaps.{Finds, collect_overlaps_lem}

abbrev naturals : Double
naturals = record {
  Real = ℕ;
  lt = ltb;
  le = leb;
  add = ◌+◌;
  sub = ◌-◌;
  mul = ◌*◌;
  zero = 0;
  half = 1;
}

naturals-IsOrdered : IsOrdered naturals
naturals-IsOrdered = record {
  lt-eq-not-le = λ a b. ground arith;
  le_refl = λ a. ground arith;
  le_trans = λ a b c h k. ground arith;
  le_total = λ a b h. ground arith;
}

abbrev square : ℕ → ℕ → ℕ → Aabb2 naturals
square x y side = record {
  min = record { x = x; y = y };
  max = record { x = x + side; y = y + side };
}

abbrev car : ℕ → ℕ → ℕ → Instance naturals ℕ
car x y id = record {
  has_model = true;
  has_blas = true;
  world_from_model = 0;
  bounds = square x y 2;
  z_min = 0;
  z_max = 1;
  entity_id = id;
}

abbrev cars : List (Instance naturals ℕ)
cars = car 1 1 7 ∷ (car 10 1 8 ∷ (car 2 2 9 ∷ []))

abbrev unsorted : (ℕ → ℕ → Bool) → ℕ → List ℕ → List ℕ
unsorted cmp n xs = xs

cars_valid : all_valid naturals cars ≡ true
unfolding all_valid
cars_valid = refl

collect_overlaps_lem_example :
    Finds naturals unsorted
      (λ cmp n xs. Permᴰ.refl xs)
      naturals-IsOrdered
      6
      cars
      (rebuild_tree naturals unsorted 6 cars)
      (square 2 2 4)
      (5 ∷ [])
collect_overlaps_lem_example =
    collect_overlaps_lem naturals unsorted (λ cmp n xs. Permᴰ.refl xs) naturals-IsOrdered 6 cars
      (square 2 2 4) (5 ∷ []) cars_valid (omega arith) (omega arith)

abbrev plane : Geometry naturals
plane = record { Pose = ℕ; compose = ◌+◌; pos = λ p. record { x = p; y = 0 }; transform = λ b p. b }

abbrev garage : Broad plane ℕ
garage = record {
  static_tree = empty_tlas naturals;
  dynamic_tree = empty_tlas naturals;
  static_instances = cars;
  dynamic_instances = car 3 3 11 ∷ [];
  dynamic_models = [] ∷ [];
  dynamic_states = [];
  static_lookup = [];
  dynamic_lookup = [];
  entity_to_dynamic_idx = [];
  dynamic_dirty = true;
  next_entity_id = 12;
}

query_entity_ids_lem_example :
    (ids : List ℕ) × (query_entity_ids plane ◌==◌ unsorted
        (square 2 2 4)
        true
        true
        (build plane ◌==◌ unsorted garage)
      ≡ some ids)
    × Permᴰ ids
        (scan naturals cars (square 2 2 4) ++ scan naturals (car 3 3 11 ∷ []) (square 2 2 4))
query_entity_ids_lem_example =
    query_entity_ids_lem naturals plane unsorted (λ cmp n xs. Permᴰ.refl xs) naturals-IsOrdered ◌==◌
      garage (square 2 2 4) cars_valid (unfold all_valid in refl) (omega arith) (omega arith)

abbrev fleet : List (Instance naturals ℕ)
fleet = car 0 0 1 ∷ (car 10 0 2 ∷ (car 20 0 3 ∷ (car 30 0 4 ∷ [])))

abbrev at_far : LeafState naturals ℕ
at_far = record { world_from_model = 1; bounds = square 90 90 2; z_min = 0; z_max = 1 }

abbrev fleet_states : List (LeafState naturals ℕ)
fleet_states = at_far ∷ (leaf_states plane (car 10 0 2 ∷ (car 20 0 3 ∷ (car 30 0 4 ∷ []))))

abbrev found_in : Option (Tlas naturals ℕ) → Option (List ℕ)
found_in none = none
found_in (some t) = collect_overlaps naturals 8 t (square 90 90 2) []

-- `refit` refreshes the root before the nodes on the way to the first leaf: the first of four
-- objects, moved away, is not found where it is.
refit_misses :
    found_in (refit naturals 7 (rebuild_tree naturals unsorted 8 fleet) fleet_states) ≡ some []
unfolding refit refit_internal mark_all mark_up refresh_reversed write_leaf_nodes rebuild_tree
    all_valid build_tree build_recursive build_body build_children close_node merge_range merge
    std_min std_max collect_overlaps collect_loop visit intersects before longest_axis
refit_misses = refl

-- `update_leaf` of the same leaf finds it.
update_leaf_finds :
    found_in (update_leaf naturals 7 (rebuild_tree naturals unsorted 8 fleet) 0 at_far)
    ≡ some (1 ∷ [])
unfolding update_leaf refit_from_leaf refresh_up rebuild_tree all_valid build_tree build_recursive
    build_body build_children close_node merge_range merge std_min std_max collect_overlaps
    collect_loop visit intersects before longest_axis
update_leaf_finds = refl

abbrev filters : List (CollisionFilter ℕ)
filters =
    record { category = 5; collides_with = 6 ∷ (5 ∷ []) }
    ∷ (record { category = 6; collides_with = 7 ∷ [] } ∷ [])
