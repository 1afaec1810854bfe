-- ===== src/Collision/Sat/Order.antt =====
-- The projections of libs/collision/src/sat.cpp on an axis: when two of them show a gap.
use ddrl_nav2d.Prelude.{
  ◌≡◌, ◌⊎◌, refl, ap, ◌∙◌, true, false, not, ◌&&◌, ◌||◌, List, [], ◌∷◌, All, Bool-cases, inl, inr,
  arith,
}
use ddrl_nav2d.Collision.Bounds.{Point2, IsOrdered, std_min, std_max}
use ddrl_nav2d.Sim.Maths.{Maths}
use ddrl_nav2d.Collision.Sat.{eps, dot, project_from, project_polygon, penetration}

-- What the test relies on of `double` away from NaN, besides the order: the sign of a difference,
-- the infinities, and that the square of the zero vector is at most the tolerance.
pub record IsSigned (M : Maths) (infinity : M.Real) : Type 0 where
  pub lt-zero-sub : (a b : M.Real) → M.lt M.zero (M.sub a b) ≡ M.lt b a
  pub le_infinity : (a : M.Real) → M.le a infinity ≡ true
  pub neg_infinity_le : (a : M.Real) → M.le (M.neg infinity) a ≡ true
  pub zero_le_eps : M.le (M.add (M.mul M.zero M.zero) (M.mul M.zero M.zero)) (eps M infinity) ≡ true

module _ (M : Maths) (infinity : M.Real) where
  -- All of the first points come before all of the second in the direction, or are level with them.
  pub Before : Point2 M.double → List (Point2 M.double) → List (Point2 M.double) → Type 0
  Before n xs ys = All (λ p. All (λ q. M.le (dot M infinity n p) (dot M infinity n q) ≡ true) ys) xs

  -- In the direction, one of two sets of points comes before the other, or one has no extent.
  pub Gap : Point2 M.double → List (Point2 M.double) → List (Point2 M.double) → Type 0
  Gap n a b = (Before n a b ⊎ Before n b a) ⊎ (Before n a a ⊎ Before n b b)

module _ (M : Maths) (infinity : M.Real) (ordered : IsOrdered M.double)
    (signed : IsSigned M infinity) where
  open ordered use {lt-eq-not-le, le_refl, le_trans, le_total}
  open signed use {lt-zero-sub, le_infinity, neg_infinity_le}

  abbrev Real : Type 0
  Real = M.Real

  le-std_min : (x a b : Real) → M.le x (std_min M.double a b) ≡ (M.le x a && M.le x b)
  unfolding std_min
  le-std_min x a b = ground (arith, lt-eq-not-le b a, le_total a b, le_trans x a b, le_trans x b a)

  std_max-le : (x a b : Real) → M.le (std_max M.double a b) x ≡ (M.le a x && M.le b x)
  unfolding std_max
  std_max-le x a b = ground (arith, lt-eq-not-le a b, le_total b a, le_trans a b x, le_trans b a x)

  -- A number is at most the least value of a projection exactly if it is at most all of them.
  AtMost-project :
      (n : Point2 M.double) (x lo hi : Real) (ps : List (Point2 M.double))
      → M.le x lo ≡ true
      → All (λ p. M.le x (dot M infinity n p) ≡ true) ps
      → M.le x (project_from M infinity n (lo, hi) ps).0 ≡ true
  AtMost-project n x lo hi [] h k = h
  AtMost-project n x lo hi (p ∷ ps) h k =
      AtMost-project n x (std_min M.double lo (dot M infinity n p)) _ ps
        (ground (arith, le-std_min x lo (dot M infinity n p), h, k.0)) k.1

  project-AtMost :
      (n : Point2 M.double) (x lo hi : Real) (ps : List (Point2 M.double))
      → M.le x (project_from M infinity n (lo, hi) ps).0 ≡ true
      → (M.le x lo ≡ true) × All (λ p. M.le x (dot M infinity n p) ≡ true) ps
  project-AtMost n x lo hi [] h = (h, tt)
  project-AtMost n x lo hi (p ∷ ps) h =
      let (l, k) = project-AtMost n x (std_min M.double lo (dot M infinity n p)) _ ps h in
      let e = le-std_min x lo (dot M infinity n p) in
      (ground (arith, e, l), (ground (arith, e, l), k))

  AtLeast-project :
      (n : Point2 M.double) (x lo hi : Real) (ps : List (Point2 M.double))
      → M.le hi x ≡ true
      → All (λ p. M.le (dot M infinity n p) x ≡ true) ps
      → M.le (project_from M infinity n (lo, hi) ps).1 x ≡ true
  AtLeast-project n x lo hi [] h k = h
  AtLeast-project n x lo hi (p ∷ ps) h k =
      AtLeast-project n x (std_min M.double lo (dot M infinity n p))
        (std_max M.double hi (dot M infinity n p)) ps
        (ground (arith, std_max-le x hi (dot M infinity n p), h, k.0)) k.1

  project-AtLeast :
      (n : Point2 M.double) (x lo hi : Real) (ps : List (Point2 M.double))
      → M.le (project_from M infinity n (lo, hi) ps).1 x ≡ true
      → (M.le hi x ≡ true) × All (λ p. M.le (dot M infinity n p) x ≡ true) ps
  project-AtLeast n x lo hi [] h = (h, tt)
  project-AtLeast n x lo hi (p ∷ ps) h =
      let (l, k) =
        project-AtLeast n x (std_min M.double lo (dot M infinity n p))
          (std_max M.double hi (dot M infinity n p)) ps h in
      let e = std_max-le x hi (dot M infinity n p) in
      (ground (arith, e, l), (ground (arith, e, l), k))

  abbrev projected : List (Point2 M.double) → Point2 M.double → Real × Real
  projected ps n = project_polygon M infinity ps n

  module _ (n : Point2 M.double) (b : List (Point2 M.double)) where
    spread :
        (a : List (Point2 M.double))
        → All (λ p. M.le (dot M infinity n p) (projected b n).0 ≡ true) a
        → Before M infinity n a b
    unfolding Before project_polygon
    spread [] h = tt
    spread (p ∷ a) h =
        ((project-AtMost n (dot M infinity n p) infinity (M.neg infinity) b h.0).1, spread a h.1)

    gather :
        (a : List (Point2 M.double))
        → Before M infinity n a b
        → All (λ p. M.le (dot M infinity n p) (projected b n).0 ≡ true) a
    unfolding Before project_polygon
    gather [] h = tt
    gather (p ∷ a) h = (
      AtMost-project n (dot M infinity n p) infinity (M.neg infinity) b
          (le_infinity (dot M infinity n p)) h.0,
      gather a h.1,
    )

  le-Before :
      (n : Point2 M.double) (a b : List (Point2 M.double))
      → M.le (projected a n).1 (projected b n).0 ≡ true
      → Before M infinity n a b
  unfolding project_polygon
  le-Before n a b h = spread n b a (project-AtLeast n _ infinity (M.neg infinity) a h).1

  Before-le :
      (n : Point2 M.double) (a b : List (Point2 M.double))
      → Before M infinity n a b
      → M.le (projected a n).1 (projected b n).0 ≡ true
  unfolding project_polygon
  Before-le n a b h =
      AtLeast-project n _ infinity (M.neg infinity) a (neg_infinity_le _) (gather n b a h)

  abbrev depth : Point2 M.double → List (Point2 M.double) → List (Point2 M.double) → Real
  depth n a b = penetration M infinity (projected a n) (projected b n)

  std_min-le : (x a b : Real) → M.le (std_min M.double a b) x ≡ (M.le a x || M.le b x)
  unfolding std_min
  std_min-le x a b = ground (arith, lt-eq-not-le b a, le_total a b, le_trans a b x, le_trans b a x)

  le-std_max : (x a b : Real) → M.le x (std_max M.double a b) ≡ (M.le x a || M.le x b)
  unfolding std_max
  le-std_max x a b = ground (arith, lt-eq-not-le a b, le_total b a, le_trans x a b, le_trans x b a)

  shallow-le :
      (a b : Real × Real)
      → M.lt M.zero (penetration M infinity a b)
        ≡ not ((M.le a.1 a.0 || M.le a.1 b.0) || (M.le b.1 a.0 || M.le b.1 b.0))
  unfolding penetration
  shallow-le a b =
      lt-zero-sub (std_min M.double a.1 b.1) (std_max M.double a.0 b.0)
      ∙ lt-eq-not-le (std_max M.double a.0 b.0) (std_min M.double a.1 b.1)
      ∙ ap not (
          std_min-le (std_max M.double a.0 b.0) a.1 b.1
          ∙ rw (le-std_max a.1 a.0 b.0, le-std_max b.1 a.0 b.0) refl)

  -- The projections of two sets of points leave no depth exactly if the direction shows a gap.
  pub shallow-Gap :
      (n : Point2 M.double) (a b : List (Point2 M.double))
      → M.lt M.zero (penetration M infinity (projected a n) (projected b n)) ≡ false
      → Gap M infinity n a b
  unfolding Gap
  shallow-Gap n a b h =
      let e = shallow-le (projected a n) (projected b n) in
      elim (Bool-cases (M.le (projected a n).1 (projected b n).0)) [
        | inl t ↦ inl (inl (le-Before n a b t))
        | inr f ↦ elim (Bool-cases (M.le (projected b n).1 (projected a n).0)) [
          | inl t ↦ inl (inr (le-Before n b a t))
          | inr g ↦ elim (Bool-cases (M.le (projected a n).1 (projected a n).0)) [
            | inl t ↦ inr (inl (le-Before n a a t))
            | inr k ↦ inr (inr (le-Before n b b (ground (arith, e, h, f, g, k))))
          ]
        ]
      ]

  pub Gap-shallow :
      (n : Point2 M.double) (a b : List (Point2 M.double))
      → Gap M infinity n a b
      → M.lt M.zero (penetration M infinity (projected a n) (projected b n)) ≡ false
  unfolding Gap
  Gap-shallow n a b (inl (inl h)) =
      ground (arith, shallow-le (projected a n) (projected b n), Before-le n a b h)
  Gap-shallow n a b (inl (inr h)) =
      ground (arith, shallow-le (projected a n) (projected b n), Before-le n b a h)
  Gap-shallow n a b (inr (inl h)) =
      ground (arith, shallow-le (projected a n) (projected b n), Before-le n a a h)
  Gap-shallow n a b (inr (inr h)) =
      ground (arith, shallow-le (projected a n) (projected b n), Before-le n b b h)
