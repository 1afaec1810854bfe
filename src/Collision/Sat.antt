-- ===== src/Collision/Sat.antt =====
-- libs/collision/src/sat.cpp: the separating axis test of two polygons, with the functions of
-- libs/core/include/core/math/numeric.hpp and geom/shape.hpp that it calls. A vector is a point.
pub mod Shapes
pub mod Order
pub mod Scans
pub mod Separates
mod Tests
use ddrl_nav2d.Prelude.{
  ℕ, Bool, true, false, not, ◌&&◌, ◌||◌, if◌then◌else◌, List, [], ◌∷◌, ◌++◌, map, Option, none,
  some, length,
}
use ddrl_nav2d.Collision.Bounds.{Point2, std_min, std_max}
use ddrl_nav2d.Sim.Maths.{Maths, Pose2, point, clamp, transform_point}

module _ (M : Maths) where
  pub record CollisionResult : Type 0 where
    pub intersects : Bool
    pub penetration_depth : M.Real
    pub normal : Point2 M.double

  -- `Shape2` and its alternatives.
  pub data Shape2 : Type 0 where
    circle : M.Real → Shape2
    box2 : (hx hy : M.Real) → Shape2
    polygon2 : List (Point2 M.double) → Shape2

  -- What an axis test carries: the least penetration and its axis.
  pub record Scan : Type 0 where
    pub min_pen : M.Real
    pub best_axis : Point2 M.double

module _ (M : Maths) where
  pub record Shape2p5 : Type 0 where
    pub base : Shape2 M
    pub z_min : M.Real
    pub z_max : M.Real

module _ (M : Maths) (infinity : M.Real) where
  open M use {Real, lt, le, add, sub, mul, div, neg, sqrt, zero, decimal}

  abbrev pub eps : Real
  eps = decimal 1 9

  abbrev pub vsub : Point2 M.double → Point2 M.double → Point2 M.double
  vsub a b = point M (sub a.x b.x) (sub a.y b.y)

  abbrev pub vneg : Point2 M.double → Point2 M.double
  vneg a = point M (neg a.x) (neg a.y)

  abbrev pub vdiv : Point2 M.double → Real → Point2 M.double
  vdiv a k = point M (div a.x k) (div a.y k)

  abbrev pub dot : Point2 M.double → Point2 M.double → Real
  dot a b = add (mul a.x b.x) (mul a.y b.y)

  abbrev pub length_sq : Point2 M.double → Real
  length_sq a = dot a a

  abbrev pub norm : Point2 M.double → Real
  norm a = sqrt (length_sq a)

  unfoldable pub normalized : Point2 M.double → Point2 M.double
  normalized a = if lt eps (norm a) then vdiv a (norm a) else point M zero zero

  unfoldable pub edge_normal : Point2 M.double → Point2 M.double → Point2 M.double
  edge_normal a b =
      let edge = vsub b a in
      let n = point M (neg edge.y) edge.x in
      if le (length_sq edge) eps
      then point M zero zero
      else if le (norm n) eps
      then point M zero zero
      else vdiv n (norm n)

  -- The edges from each vertex to the next, the last one back to the first.
  abbrev pub edges_from :
      Point2 M.double
      → Point2 M.double
      → List (Point2 M.double)
      → List (Point2 M.double × Point2 M.double)
  edges_from first p [] = (p, first) ∷ []
  edges_from first p (q ∷ qs) = (p, q) ∷ edges_from first q qs

  abbrev pub edges : List (Point2 M.double) → List (Point2 M.double × Point2 M.double)
  edges [] = []
  edges (p ∷ ps) = edges_from p p ps

  abbrev pub normal_of : Point2 M.double × Point2 M.double → Point2 M.double
  normal_of e = edge_normal e.0 e.1

  abbrev pub axes : List (Point2 M.double) → List (Point2 M.double)
  axes poly = map normal_of (edges poly)

  abbrev sum_of : Point2 M.double → List (Point2 M.double) → Point2 M.double
  sum_of acc [] = acc
  sum_of acc (p ∷ ps) = sum_of (point M (add acc.x p.x) (add acc.y p.y)) ps

  unfoldable pub centroid : List (Point2 M.double) → Point2 M.double
  centroid [] = point M zero zero
  centroid (p ∷ ps) = vdiv (sum_of (point M zero zero) (p ∷ ps)) (decimal (length (p ∷ ps)) 0)

  -- The least and the greatest value of a projection.
  abbrev pub project_from : Point2 M.double → Real × Real → List (Point2 M.double) → Real × Real
  project_from axis (lo, hi) [] = (lo, hi)
  project_from axis (lo, hi) (p ∷ ps) =
      project_from axis (std_min M.double lo (dot axis p), std_max M.double hi (dot axis p)) ps

  unfoldable pub project_polygon : List (Point2 M.double) → Point2 M.double → Real × Real
  project_polygon poly axis = project_from axis (infinity, neg infinity) poly

  unfoldable pub project_circle : Point2 M.double → Real → Point2 M.double → Real × Real
  project_circle center radius axis = (sub (dot axis center) radius, add (dot axis center) radius)

  unfoldable pub penetration : Real × Real → Real × Real → Real
  penetration a b = sub (std_min M.double a.1 b.1) (std_max M.double a.0 b.0)

  abbrev pub oriented : Point2 M.double → Point2 M.double → Point2 M.double
  oriented centers axis = if lt (dot centers axis) zero then vneg axis else axis

  abbrev pub narrower : Real → Point2 M.double → Scan M → Scan M
  narrower pen axis s = if lt pen s.min_pen then record { min_pen = pen; best_axis = axis } else s

  -- One pass of the loops over edges; `none` is a gap.
  abbrev pub test_axis :
      (Point2 M.double → Real) → Point2 M.double → Point2 M.double → Scan M → Option (Scan M)
  test_axis pen centers axis s =
      if le (length_sq axis) eps
      then some s
      else if lt zero (pen axis)
      then some (narrower (pen axis) (oriented centers axis) s)
      else none

  abbrev pub then_test : Option (Scan M) → (Scan M → Option (Scan M)) → Option (Scan M)
  then_test none f = none
  then_test (some s) f = f s

  abbrev pub test_axes :
      (Point2 M.double → Real) → Point2 M.double → List (Point2 M.double) → Scan M → Option (Scan M)
  test_axes pen centers [] s = some s
  test_axes pen centers (a ∷ as') s =
      then_test (test_axis pen centers a s) (λ t. test_axes pen centers as' t)

  abbrev pub start_scan : Scan M
  start_scan = record { min_pen = infinity; best_axis = point M zero zero }

  abbrev pub no_result : CollisionResult M
  no_result = record { intersects = false; penetration_depth = zero; normal = point M zero zero }

  abbrev pub result_of : Option (Scan M) → CollisionResult M
  result_of none = no_result
  result_of (some s) =
      let best =
        if le (length_sq s.best_axis) eps then point M (decimal 1 0) zero else s.best_axis in
      record { intersects = true; penetration_depth = s.min_pen; normal = normalized best }

  abbrev pub is_nil : List (Point2 M.double) → Bool
  is_nil [] = true
  is_nil (p ∷ ps) = false

  unfoldable pub sat_polygon_polygon :
      List (Point2 M.double) → List (Point2 M.double) → CollisionResult M
  sat_polygon_polygon a b =
      let pen =
        λ (axis : Point2 M.double). penetration (project_polygon a axis) (project_polygon b axis) in
      let centers = vsub (centroid b) (centroid a) in
      if is_nil a || is_nil b
      then no_result
      else result_of (
          then_test (test_axes pen centers (axes a) start_scan)
            (λ s. test_axes pen centers (axes b) s))
