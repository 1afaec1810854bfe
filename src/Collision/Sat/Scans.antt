-- ===== src/Collision/Sat/Scans.antt =====
-- The loops of the separating axis test of libs/collision/src/sat.cpp, as a test of all the axes.
use ddrl_nav2d.Prelude.{
  ◌≡◌, refl, ◌∙◌, Bool, true, false, not, ◌&&◌, ◌||◌, List, [], ◌∷◌, Option, none, some, Bool-cases,
  inl, inr, arith,
}
use ddrl_nav2d.Collision.Bounds.{Point2}
use ddrl_nav2d.Sim.Maths.{Maths}
use ddrl_nav2d.Collision.Sat.{
  Scan, eps, length_sq, axes, project_polygon, penetration, test_axis, then_test, test_axes,
  result_of, is_nil, sat_polygon_polygon,
}

module _ (M : Maths) (infinity : M.Real) where
  -- Whether an axis shows no gap: it is that of an edge without length, or the projections overlap.
  abbrev pub overlaps : (Point2 M.double → M.Real) → Point2 M.double → Bool
  overlaps pen axis = M.le (length_sq M infinity axis) (eps M infinity) || M.lt M.zero (pen axis)

  abbrev pub all_overlap : (Point2 M.double → M.Real) → List (Point2 M.double) → Bool
  all_overlap pen [] = true
  all_overlap pen (a ∷ as') = overlaps pen a && all_overlap pen as'

  abbrev is_some : Option (Scan M) → Bool
  is_some none = false
  is_some (some s) = true

  axis-is_some :
      (pen : Point2 M.double → M.Real) (centers a : Point2 M.double) (s : Scan M)
      → is_some (test_axis M infinity pen centers a s) ≡ overlaps pen a
  axis-is_some pen centers a s = ground arith

  then-is_some :
      (o : Option (Scan M)) (b c : Bool) (f : Scan M → Option (Scan M))
      → is_some o ≡ b
      → ((s : Scan M) → is_some (f s) ≡ c)
      → is_some (then_test M infinity o f) ≡ (b && c)
  then-is_some none b c f e k = ground arith
  then-is_some (some s) b c f e k = k s ∙ ground arith

  axes-is_some :
      (pen : Point2 M.double → M.Real) (centers : Point2 M.double) (as' : List (Point2 M.double))
      (s : Scan M)
      → is_some (test_axes M infinity pen centers as' s) ≡ all_overlap pen as'
  axes-is_some pen centers [] s = refl
  axes-is_some pen centers (a ∷ as') s =
      then-is_some (test_axis M infinity pen centers a s) _ _ _ (axis-is_some pen centers a s)
        (λ t. axes-is_some pen centers as' t)

  result-intersects : (o : Option (Scan M)) → (result_of M infinity o).intersects ≡ is_some o
  result-intersects none = refl
  result-intersects (some s) = refl

  abbrev pub depth_on : List (Point2 M.double) → List (Point2 M.double) → Point2 M.double → M.Real
  depth_on a b axis =
      penetration M infinity (project_polygon M infinity a axis) (project_polygon M infinity b axis)

  pub sat_overlaps :
      (a b : List (Point2 M.double))
      → (sat_polygon_polygon M infinity a b).intersects ≡ (
          not (is_nil M infinity a || is_nil M infinity b)
          && (all_overlap (depth_on a b) (axes M infinity a)
              && all_overlap (depth_on a b) (axes M infinity b)))
  unfolding sat_polygon_polygon
  sat_overlaps a b = elim (Bool-cases (is_nil M infinity a || is_nil M infinity b)) [
    | inl t ↦ rw t refl
    | inr f ↦ rw f (
        result-intersects _
        ∙ then-is_some _ _ _ _ (axes-is_some (depth_on a b) _ (axes M infinity a) _)
            (λ s. axes-is_some (depth_on a b) _ (axes M infinity b) s))
  ]
