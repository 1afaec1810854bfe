-- ===== src/Collision/Sat/Shapes.antt =====
-- The rest of libs/collision/src/sat.cpp: circles, the closest point on a polygon, the heights, and
-- the choice of a test by the two shapes.
use ddrl_nav2d.Prelude.{
  Bool, true, not, ◌&&◌, if◌then◌else◌, List, [], ◌∷◌, map, Option, none, some,
}
use ddrl_nav2d.Collision.Bounds.{Point2, std_max}
use ddrl_nav2d.Sim.Maths.{Maths, Pose2, point, clamp, transform_point}
use ddrl_nav2d.Collision.Sat.{
  CollisionResult, Scan, Shape2, Shape2p5, axes, centroid, dot, edges, eps, is_nil, length_sq,
  narrower, no_result, norm, normalized, oriented, penetration, project_circle, project_polygon,
  result_of, sat_polygon_polygon, start_scan, test_axes, then_test, vdiv, vneg, vsub,
}

module _ (M : Maths) (infinity : M.Real) where
  open M use {Real, lt, le, add, sub, mul, div, neg, sqrt, zero, decimal}

  unfoldable pub sat_circle_circle :
      Point2 M.double → Real → Point2 M.double → Real → CollisionResult M
  sat_circle_circle a_center a_radius b_center b_radius =
      let delta = vsub M infinity b_center a_center in
      let dist_sq = length_sq M infinity delta in
      let r_sum = add a_radius b_radius in
      let dist = sqrt (std_max M.double dist_sq zero) in
      if le (mul r_sum r_sum) dist_sq then no_result M infinity else record {
        intersects = true;
        penetration_depth = sub r_sum dist;
        normal =
            if lt (eps M infinity) dist
            then vdiv M infinity delta dist
            else point M (decimal 1 0) zero;
      }

  abbrev segment_point : Point2 M.double → Point2 M.double → Point2 M.double → Point2 M.double
  segment_point a b p =
      let ab = vsub M infinity b a in
      let t =
        clamp M (div (dot M infinity (vsub M infinity p a) ab) (length_sq M infinity ab)) zero
          (decimal 1 0) in
      if le (length_sq M infinity ab) (eps M infinity)
      then a
      else point M (add a.x (mul ab.x t)) (add a.y (mul ab.y t))

  -- `closest_point_on_polygon`, from the closest point so far.
  abbrev closer :
      Point2 M.double → Point2 M.double → List (Point2 M.double × Point2 M.double) → Point2 M.double
  closer p best [] = best
  closer p best (e ∷ es) =
      let cand = segment_point e.0 e.1 p in
      closer p
        (if lt (length_sq M infinity (vsub M infinity cand p))
            (length_sq M infinity (vsub M infinity best p))
          then cand
          else best)
        es

  unfoldable pub closest_point_on_polygon :
      List (Point2 M.double) → Point2 M.double → Point2 M.double
  closest_point_on_polygon [] p = p
  closest_point_on_polygon (q ∷ qs) p = closer p q (edges M infinity (q ∷ qs))

  -- The axis from the closest point to the center, or the best axis if the two coincide.
  abbrev center_axis : Point2 M.double → Scan M → Point2 M.double
  center_axis offset s =
      if le (norm M infinity offset) (eps M infinity)
      then if lt (eps M infinity) (length_sq M infinity s.best_axis)
        then s.best_axis
        else point M (decimal 1 0) zero
      else offset

  abbrev test_center :
      (Point2 M.double → Real) → Point2 M.double → Point2 M.double → Scan M → Option (Scan M)
  test_center pen centers offset s =
      let raw = center_axis offset s in
      let axis = vdiv M infinity raw (norm M infinity raw) in
      if le (norm M infinity raw) (eps M infinity)
      then some s
      else if lt zero (pen axis)
      then some (narrower M infinity (pen axis) (oriented M infinity centers axis) s)
      else none

  unfoldable pub sat_polygon_circle :
      List (Point2 M.double) → Point2 M.double → Real → CollisionResult M
  sat_polygon_circle poly center radius =
      let pen = λ (axis : Point2 M.double).
        penetration M infinity (project_polygon M infinity poly axis)
          (project_circle M infinity center radius axis) in
      let centers = vsub M infinity center (centroid M infinity poly) in
      let offset = vsub M infinity center (closest_point_on_polygon poly center) in
      if is_nil M infinity poly
      then no_result M infinity
      else result_of M infinity (
          then_test M infinity
            (test_axes M infinity pen centers (axes M infinity poly) (start_scan M infinity))
            (λ s. test_center pen centers offset s))

  unfoldable pub z_ranges_overlap : Real → Real → Real → Real → Bool
  z_ranges_overlap amin amax bmin bmax =
      let alo = if lt amax amin then amax else amin in
      let ahi = if lt amax amin then amin else amax in
      let blo = if lt bmax bmin then bmax else bmin in
      let bhi = if lt bmax bmin then bmin else bmax in le alo bhi && le blo ahi

  abbrev corners : Real → Real → List (Point2 M.double)
  corners hx hy =
      point M (neg hx) (neg hy)
      ∷ (point M hx (neg hy) ∷ (point M hx hy ∷ (point M (neg hx) hy ∷ [])))

  abbrev pub placed : List (Point2 M.double) → Pose2 M → List (Point2 M.double)
  placed verts pose = map (transform_point M pose) verts

  -- The result from the other side.
  abbrev pub flipped : CollisionResult M → CollisionResult M
  flipped r =
      let back = vneg M infinity r.normal in
      if r.intersects
      then record r {
        normal =
            if lt (eps M infinity) (length_sq M infinity back)
            then normalized M infinity back
            else point M (decimal 1 0) zero;
      }
      else r

  abbrev pub collide_bases : Shape2 M → Pose2 M → Shape2 M → Pose2 M → CollisionResult M
  collide_bases (Shape2.circle ra) pa (Shape2.circle rb) pb =
      sat_circle_circle (transform_point M pa (point M zero zero)) ra
        (transform_point M pb (point M zero zero)) rb
  collide_bases (Shape2.circle ra) pa (Shape2.box2 hx hy) pb =
      flipped (
        sat_polygon_circle (placed (corners hx hy) pb) (transform_point M pa (point M zero zero))
          ra)
  collide_bases (Shape2.circle ra) pa (Shape2.polygon2 v) pb =
      flipped (sat_polygon_circle (placed v pb) (transform_point M pa (point M zero zero)) ra)
  collide_bases (Shape2.box2 hx hy) pa (Shape2.circle rb) pb =
      sat_polygon_circle (placed (corners hx hy) pa) (transform_point M pb (point M zero zero)) rb
  collide_bases (Shape2.box2 hx hy) pa (Shape2.box2 kx ky) pb =
      sat_polygon_polygon M infinity (placed (corners hx hy) pa) (placed (corners kx ky) pb)
  collide_bases (Shape2.box2 hx hy) pa (Shape2.polygon2 v) pb =
      sat_polygon_polygon M infinity (placed (corners hx hy) pa) (placed v pb)
  collide_bases (Shape2.polygon2 u) pa (Shape2.circle rb) pb =
      sat_polygon_circle (placed u pa) (transform_point M pb (point M zero zero)) rb
  collide_bases (Shape2.polygon2 u) pa (Shape2.box2 hx hy) pb =
      sat_polygon_polygon M infinity (placed u pa) (placed (corners hx hy) pb)
  collide_bases (Shape2.polygon2 u) pa (Shape2.polygon2 v) pb =
      sat_polygon_polygon M infinity (placed u pa) (placed v pb)

  unfoldable pub collide_shapes : Shape2p5 M → Pose2 M → Shape2p5 M → Pose2 M → CollisionResult M
  collide_shapes a a_world b b_world =
      if not (z_ranges_overlap a.z_min a.z_max b.z_min b.z_max)
      then no_result M infinity
      else collide_bases a.base a_world b.base b_world
