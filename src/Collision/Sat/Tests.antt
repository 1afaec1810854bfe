-- ===== src/Collision/Sat/Tests.antt =====
-- Two squares for libs/collision/src/sat.cpp, one above the other, over natural numbers that are
-- compared up to 100; a division is not made.
use ddrl_nav2d.Prelude.{
  ℕ, ◌+◌, ◌-◌, min, arith, ◌≡◌, ◌↔◌, ◌⊎◌, refl, false, List, [], ◌∷◌, ltb, leb,
}
use ddrl_nav2d.Collision.Bounds.{Double, Point2, IsOrdered, std_min, std_max}
use ddrl_nav2d.Sim.Maths.{Maths}
use ddrl_nav2d.Sim.Tests.{naturals, maths}
use ddrl_nav2d.Collision.Sat.{
  edge_normal, centroid, project_polygon, penetration, normalized, sat_polygon_polygon,
}
use ddrl_nav2d.Collision.Sat.Order.{IsSigned}
use ddrl_nav2d.Collision.Sat.Separates.{Separates, sat_gap_lem}

abbrev clipped : Double
clipped = record naturals {
  lt = λ a b. ltb (min a 100) (min b 100);
  le = λ a b. leb (min a 100) (min b 100);
  sub = λ a b. min a 100 - min b 100;
}

abbrev unscaled : Maths
unscaled = record maths { double = clipped; div = λ a b. a }

unscaled-IsOrdered : IsOrdered clipped
unscaled-IsOrdered = record {
  lt-eq-not-le = λ a b. ground arith;
  le_refl = λ a. ground arith;
  le_trans = λ a b c h k. ground arith;
  le_total = λ a b h. ground arith;
}

unscaled-IsSigned : IsSigned unscaled 100
unscaled-IsSigned = record {
  lt-zero-sub = λ a b. ground arith;
  le_infinity = λ a. ground arith;
  neg_infinity_le = λ a. ground arith;
  zero_le_eps = refl;
}

abbrev corner : ℕ → ℕ → Point2 clipped
corner a b = record { x = a; y = b }

abbrev square : ℕ → List (Point2 clipped)
square k = corner 0 k ∷ (corner 2 k ∷ (corner 2 (2 + k) ∷ (corner 0 (2 + k) ∷ [])))

sat_gap_lem_example :
    ((sat_polygon_polygon unscaled 100 (square 0) (square 5)).intersects ≡ false) ↔ (
      ((square 0 ≡ []) ⊎ (square 5 ≡ []))
      ⊎ (Separates unscaled 100 (square 0) (square 5) (square 0)
          ⊎ Separates unscaled 100 (square 0) (square 5) (square 5)))
sat_gap_lem_example =
    sat_gap_lem unscaled 100 unscaled-IsOrdered unscaled-IsSigned (square 0) (square 5)

squares_apart : (sat_polygon_polygon unscaled 100 (square 0) (square 5)).intersects ≡ false
unfolding sat_polygon_polygon edge_normal centroid project_polygon penetration normalized std_min
    std_max
squares_apart = refl
