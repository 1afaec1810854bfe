-- ===== src/Collision/Sat/Separates.antt =====
-- The separating axis test of two polygons of libs/collision/src/sat.cpp: the polygons are apart
-- exactly if an edge of one of them separates them.
use ddrl_nav2d.Prelude.{
  ℕ, zero, suc, ◌≡◌, ◌↔◌, ◌⊎◌, refl, sym, false, List, [], ◌∷◌, ◌++◌, map, some, get_elem?,
  Bool-cases, inl, inr, arith,
}
use ddrl_nav2d.Collision.Bounds.{Point2, IsOrdered}
use ddrl_nav2d.Sim.Maths.{Maths, point}
use ddrl_nav2d.Collision.Sat.{
  eps, length_sq, edge_normal, edges_from, edges, normal_of, axes, sat_polygon_polygon,
}
use ddrl_nav2d.Collision.Sat.Scans.{overlaps, all_overlap, depth_on, sat_overlaps}
use ddrl_nav2d.Collision.Sat.Order.{IsSigned, Gap, shallow-Gap, Gap-shallow}

module _ (M : Maths) (infinity : M.Real) where
  -- The polygon with its first vertex moved to its end.
  abbrev pub turned : List (Point2 M.double) → List (Point2 M.double)
  turned [] = []
  turned (p ∷ ps) = ps ++ (p ∷ [])

  -- The unit vector that stands at a right angle on the edge from `p` to `q`, unless the edge, its
  -- length or the vector is shorter than the tolerance.
  pub IsNormal : Point2 M.double → Point2 M.double → Point2 M.double → Type 0
  IsNormal p q n =
      let dx = M.sub q.x p.x in
      let dy = M.sub q.y p.y in
      let len = M.sqrt (M.add (M.mul (M.neg dy) (M.neg dy)) (M.mul dx dx)) in
      (M.le (M.add (M.mul dx dx) (M.mul dy dy)) (eps M infinity) ≡ false)
      × (M.le len (eps M infinity) ≡ false)
      × (n ≡ point M (M.div (M.neg dy) len) (M.div dx len))
      × (M.le (M.add (M.mul n.x n.x) (M.mul n.y n.y)) (eps M infinity) ≡ false)

  -- An edge of the polygon, from a vertex to the next and from the last to the first, on whose normal
  -- the other two polygons show a gap.
  pub Separates : List (Point2 M.double) → List (Point2 M.double) → List (Point2 M.double) → Type 0
  Separates a b poly =
      (i : ℕ) × (p : Point2 M.double) × (q : Point2 M.double) × (n : Point2 M.double) × (get_elem?
          poly i
        ≡ some p)
      × (get_elem? (turned poly) i ≡ some q)
      × IsNormal p q n
      × Gap M infinity n a b

  edges_from-get :
      (first p : Point2 M.double) (qs : List (Point2 M.double)) (i : ℕ) (u v : Point2 M.double)
      → get_elem? (edges_from M infinity first p qs) i ≡ some (u, v)
      → (get_elem? (p ∷ qs) i ≡ some u) × (get_elem? (qs ++ (first ∷ [])) i ≡ some v)
  edges_from-get first p [] zero u v h = (cc, cc)
  edges_from-get first p [] (suc i) u v h = cc
  edges_from-get first p (q ∷ qs) zero u v h = (cc, cc)
  edges_from-get first p (q ∷ qs) (suc i) u v h = edges_from-get first q qs i u v h

  get-edges_from :
      (first p : Point2 M.double) (qs : List (Point2 M.double)) (i : ℕ) (u v : Point2 M.double)
      → get_elem? (p ∷ qs) i ≡ some u
      → get_elem? (qs ++ (first ∷ [])) i ≡ some v
      → get_elem? (edges_from M infinity first p qs) i ≡ some (u, v)
  get-edges_from first p [] zero u v h k = cc
  get-edges_from first p [] (suc i) u v h k = cc
  get-edges_from first p (q ∷ qs) zero u v h k = cc
  get-edges_from first p (q ∷ qs) (suc i) u v h k = get-edges_from first q qs i u v h k

  overlap_at :
      (pen : Point2 M.double → M.Real) (es : List (Point2 M.double × Point2 M.double)) (i : ℕ)
      (e : Point2 M.double × Point2 M.double)
      → get_elem? es i ≡ some e
      → overlaps M infinity pen (edge_normal M infinity e.0 e.1) ≡ false
      → all_overlap M infinity pen (map (normal_of M infinity) es) ≡ false
  overlap_at pen [] i e h k = cc
  overlap_at pen (x ∷ es) zero e h k =
      let same : x ≡ e = cc in
      let f : overlaps M infinity pen (edge_normal M infinity x.0 x.1) ≡ false = rw same k in
      ground (arith, f)
  overlap_at pen (x ∷ es) (suc i) e h k = let f = overlap_at pen es i e h k in ground (arith, f)

  gap_at :
      (pen : Point2 M.double → M.Real) (es : List (Point2 M.double × Point2 M.double))
      → all_overlap M infinity pen (map (normal_of M infinity) es) ≡ false
      → (i : ℕ) × (p : Point2 M.double) × (q : Point2 M.double) × (get_elem? es i ≡ some (p, q))
        × (overlaps M infinity pen (edge_normal M infinity p q) ≡ false)
  gap_at pen [] h = cc
  gap_at pen (x ∷ es) h =
      elim (Bool-cases (overlaps M infinity pen (edge_normal M infinity x.0 x.1))) [
        | inl t ↦ let (i, p, q, e, f) = gap_at pen es (ground (arith, h, t)) in (suc i, p, q, e, f)
        | inr f ↦ (0, x.0, x.1, refl, f)
      ]

  IsNormal-edge_normal : (p q n : Point2 M.double) → IsNormal p q n → edge_normal M infinity p q ≡ n
  unfolding IsNormal edge_normal
  IsNormal-edge_normal p q n (h, k, e, f) = rw (h, k) (sym e)

module _ (M : Maths) (infinity : M.Real) (ordered : IsOrdered M.double)
    (signed : IsSigned M infinity) where
  edge_normal-IsNormal :
      (p q : Point2 M.double)
      → M.le (length_sq M infinity (edge_normal M infinity p q)) (eps M infinity) ≡ false
      → IsNormal M infinity p q (edge_normal M infinity p q)
  unfolding IsNormal edge_normal
  edge_normal-IsNormal p q =
      let dx = M.sub q.x p.x in
      let dy = M.sub q.y p.y in
      let len = M.sqrt (M.add (M.mul (M.neg dy) (M.neg dy)) (M.mul dx dx)) in
      elim (Bool-cases (M.le (M.add (M.mul dx dx) (M.mul dy dy)) (eps M infinity))) [
        | inl t ↦ let z = signed.zero_le_eps in rw t (λ h. cc)
        | inr f ↦ elim (Bool-cases (M.le len (eps M infinity))) [
          | inl t ↦ let z = signed.zero_le_eps in rw (f, t) (λ h. cc)
          | inr g ↦ rw (f, g) (λ h. (refl, refl, refl, h))
        ]
      ]

  overlap-Separates :
      (a b poly : List (Point2 M.double))
      → all_overlap M infinity (depth_on M infinity a b) (axes M infinity poly) ≡ false
      → Separates M infinity a b poly
  unfolding Separates
  overlap-Separates a b [] h = cc
  overlap-Separates a b (v ∷ vs) h =
      let (i, p, q, e, f) =
        gap_at M infinity (depth_on M infinity a b) (edges M infinity (v ∷ vs)) h in
      let (at_p, at_q) = edges_from-get M infinity v v vs i p q e in
      let n = edge_normal M infinity p q in
      let big : M.le (length_sq M infinity n) (eps M infinity) ≡ false = ground (arith, f) in
      let flat : M.lt M.zero (depth_on M infinity a b n) ≡ false = ground (arith, f) in
      (
        i,
        p,
        q,
        n,
        at_p,
        at_q,
        edge_normal-IsNormal p q big,
        shallow-Gap M infinity ordered signed n a b flat,
      )

  Separates-overlap :
      (a b poly : List (Point2 M.double))
      → Separates M infinity a b poly
      → all_overlap M infinity (depth_on M infinity a b) (axes M infinity poly) ≡ false
  unfolding Separates IsNormal
  Separates-overlap a b [] (i, p, q, n, at_p, at_q, normal, gap) = cc
  Separates-overlap a b (v ∷ vs) (i, p, q, n, at_p, at_q, normal, gap) =
      let e = IsNormal-edge_normal M infinity p q n normal in
      let flat = Gap-shallow M infinity ordered signed n a b gap in
      let big = normal.3 in
      let f : overlaps M infinity (depth_on M infinity a b) (edge_normal M infinity p q) ≡ false =
        rw (e, big, flat) refl in
      overlap_at M infinity (depth_on M infinity a b) (edges M infinity (v ∷ vs)) i (p, q)
        (get-edges_from M infinity v v vs i p q at_p at_q) f

  sat_when_separated :
      (a b : List (Point2 M.double))
      → Separates M infinity a b a ⊎ Separates M infinity a b b
      → (sat_polygon_polygon M infinity a b).intersects ≡ false
  sat_when_separated a b (inl s) =
      let f = Separates-overlap a b a s in ground (arith, sat_overlaps M infinity a b, f)
  sat_when_separated a b (inr s) =
      let f = Separates-overlap a b b s in ground (arith, sat_overlaps M infinity a b, f)

  -- With numbers that the comparison orders, so none is NaN, that lie between the infinities, whose
  -- differences have the sign of the comparison, and of which the square of the zero vector is not
  -- above the tolerance: two polygons are reported as not intersecting exactly if one of them has no
  -- vertex or some edge of one of them, the one from the last vertex to the first included, separates
  -- them: in the direction of its unit normal, all vertices of one polygon come before or are level
  -- with all of the other, or one polygon has no extent. Edges and normals shorter than the tolerance
  -- do not count.
  pub sat_gap_lem :
      (a b : List (Point2 M.double))
      → ((sat_polygon_polygon M infinity a b).intersects ≡ false)
        ↔ (((a ≡ []) ⊎ (b ≡ [])) ⊎ (Separates M infinity a b a ⊎ Separates M infinity a b b))
  sat_gap_lem [] b = (λ h. inl (inl refl), λ h. sat_overlaps M infinity [] b)
  sat_gap_lem (p ∷ a) [] = (λ h. inl (inr refl), λ h. sat_overlaps M infinity (p ∷ a) [])
  sat_gap_lem (p ∷ a) (q ∷ b) =
      let e = sat_overlaps M infinity (p ∷ a) (q ∷ b) in
      let pen = depth_on M infinity (p ∷ a) (q ∷ b) in
      (
        λ h. elim (Bool-cases (all_overlap M infinity pen (axes M infinity (p ∷ a)))) [
          | inl t ↦ inr (inr (overlap-Separates (p ∷ a) (q ∷ b) (q ∷ b) (ground (arith, e, h, t))))
          | inr f ↦ inr (inl (overlap-Separates (p ∷ a) (q ∷ b) (p ∷ a) f))
        ],
        λ s. elim s [
          | inl (inl n) ↦ cc
          | inl (inr n) ↦ cc
          | inr separated ↦ sat_when_separated (p ∷ a) (q ∷ b) separated
        ],
      )
