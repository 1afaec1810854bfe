-- ===== src/Sim/Spawn/Place.antt =====
-- What the tests of libs/sim/src/spawn_manager.cpp on a position mean, with the distances, angles and
-- segments written out.
use ddrl_nav2d.Prelude.{
  ℕ, ◌≡◌, Bool, true, false, ◌&&◌, List, [], ◌∷◌, Option, none, some, get_elem?, ◌⊎◌, inl, inr, All,
  arith, Bool-cases,
}
use ddrl_nav2d.Collision.Bounds.{Point2, std_max}
use ddrl_nav2d.Sim.Maths.{
  Maths, Pose2, distance, contains, normalize_angle, segment_intersects_circle,
}
use ddrl_nav2d.Sim.Object.{Object, is_active}
use ddrl_nav2d.Sim.Spawn.{Settings, MapConfig}
use ddrl_nav2d.Sim.Spawn.Geometry.{
  any_of, all_of, blocks, is_in_fov, is_occluded, apart_from, check_separation,
  check_static_collision,
}

-- Some element of the list satisfies the predicate.
abbrev pub Any {ℓ} : {A : Type ℓ} → (A → Type 0) → List A → Type 0
Any P [] = ⊥
Any P (x ∷ xs) = P x ⊎ Any P xs

module _ {ℓ} {A : Type ℓ} where
  all_of-All :
      (f : A → Bool) (P : A → Type 0)
      → ((x : A) → f x ≡ true → P x)
      → (xs : List A) → all_of f xs ≡ true
      → All P xs
  all_of-All f P k [] h = tt
  all_of-All f P k (x ∷ xs) h = (k x (ground (arith, h)), all_of-All f P k xs (ground (arith, h)))

  none_of-All :
      (f : A → Bool) (P : A → Type 0)
      → ((x : A) → f x ≡ false → P x)
      → (xs : List A) → any_of f xs ≡ false
      → All P xs
  none_of-All f P k [] h = tt
  none_of-All f P k (x ∷ xs) h = (k x (ground (arith, h)), none_of-All f P k xs (ground (arith, h)))

  any_of-Any :
      (f : A → Bool) (P : A → Type 0)
      → ((x : A) → f x ≡ true → P x)
      → (xs : List A) → any_of f xs ≡ true
      → Any P xs
  any_of-Any f P k [] h = cc
  any_of-Any f P k (x ∷ xs) h = elim (Bool-cases (f x)) [
    | inl t ↦ inl (k x t)
    | inr n ↦ inr (any_of-Any f P k xs (ground (arith, h, n)))
  ]

module _ (M : Maths) (cfg : Settings M) (world : MapConfig M) where
  open M use {Real, lt, le, add, sub, mul, div, decimal}

  -- A point inside the rectangle of the map, its border included.
  pub Inside : Point2 M.double → Type 0
  Inside p =
      (le world.bounds.min.x p.x ≡ true)
      × (le p.x world.bounds.max.x ≡ true)
      × (le world.bounds.min.y p.y ≡ true)
      × (le p.y world.bounds.max.y ≡ true)

  -- Not nearer than 2.5 to any static instance, where the settings respect the map.
  pub IsClear : Point2 M.double → Type 0
  IsClear p =
      (cfg.respect_map_geometry ≡ false)
      ⊎ All (λ q. lt (distance M p q) (decimal 25 1) ≡ false) world.static_instances

  -- An object that is there and active is at least the smallest distance away.
  abbrev IsApartFrom : Point2 M.double → Option (Object M) → Type 0
  IsApartFrom p none = Unit
  IsApartFrom p (some o) =
      (is_active M o ≡ false)
      ⊎ (le cfg.min_inter_object_distance (distance M p o.current_pose.pos) ≡ true)

  -- Apart from all the objects of the indices.
  pub IsApart : List (Object M) → List ℕ → Point2 M.double → Type 0
  IsApart objects active p = All (λ i. IsApartFrom p (get_elem? objects i)) active

  -- Farther from the robot than its field of view reaches, or at an angle to its heading that is not
  -- smaller than half of the field of view.
  pub IsUnseen : Pose2 M → Point2 M.double → Type 0
  IsUnseen robot p =
      let dx = sub p.x robot.pos.x in
      let dy = sub p.y robot.pos.y in
      (lt cfg.fov_distance (M.sqrt (add (mul dx dx) (mul dy dy))) ≡ true)
      ⊎ (lt (M.fabs (normalize_angle M (sub (M.atan2 dy dx) robot.yaw)))
            (mul (div (mul cfg.fov_angle_deg M.pi) (decimal 180 0)) M.half)
          ≡ false)

  -- An active object with a circle around it that the segment crosses.
  abbrev IsBlocker : Pose2 M → Point2 M.double → Real → Option (Object M) → Type 0
  IsBlocker robot p radius none = ⊥
  IsBlocker robot p radius (some o) =
      (is_active M o ≡ true)
      × (segment_intersects_circle M robot.pos p o.current_pose.pos radius ≡ true)

  -- The segment from the robot crosses the circle around a static instance, where the settings respect
  -- the map, or around an active object; the radius of the circle is the one of the settings, and
  -- positive.
  pub IsHidden : List (Object M) → List ℕ → Pose2 M → Point2 M.double → Type 0
  IsHidden objects active robot p =
      let radius_static = std_max M.double M.zero cfg.occlusion.static_blocker_radius in
      let radius_dyn = std_max M.double M.zero cfg.occlusion.dynamic_blocker_radius in
      ((lt M.zero radius_static ≡ true)
        × (cfg.respect_map_geometry ≡ true)
        × Any (λ q. segment_intersects_circle M robot.pos p q radius_static ≡ true)
            world.static_instances)
      ⊎ ((lt M.zero radius_dyn ≡ true)
          × Any (λ i. IsBlocker robot p radius_dyn (get_elem? objects i)) active)

  pub contains-Inside : (p : Point2 M.double) → contains M world.bounds p ≡ true → Inside p
  unfolding contains Inside
  contains-Inside p h = ground arith

  pub check_static_collision-IsClear :
      (p : Point2 M.double) → check_static_collision M cfg world p ≡ false → IsClear p
  unfolding check_static_collision IsClear
  check_static_collision-IsClear p = elim (Bool-cases cfg.respect_map_geometry) [
    | inl t ↦ λ h. inr (none_of-All _ _ (λ q k. k) world.static_instances (ground (arith, h, t)))
    | inr n ↦ λ h. inl n
  ]

  apart_from-IsApartFrom :
      (p : Point2 M.double) (o : Option (Object M))
      → apart_from M cfg world p o ≡ true
      → IsApartFrom p o
  apart_from-IsApartFrom p none = λ h. tt
  apart_from-IsApartFrom p (some o) = elim (Bool-cases (is_active M o)) [
    | inl t ↦ rw t (λ h. inr h)
    | inr n ↦ λ h. inl n
  ]

  pub check_separation-IsApart :
      (objects : List (Object M)) (active : List ℕ) (p : Point2 M.double)
      → check_separation M cfg world objects active p ≡ true
      → IsApart objects active p
  unfolding check_separation IsApart
  check_separation-IsApart objects active p =
      all_of-All _ _ (λ i. apart_from-IsApartFrom p (get_elem? objects i)) active

  pub is_in_fov-IsUnseen :
      (robot : Pose2 M) (p : Point2 M.double)
      → is_in_fov M cfg world robot p ≡ false
      → IsUnseen robot p
  unfolding is_in_fov IsUnseen
  is_in_fov-IsUnseen robot p =
      let dx = sub p.x robot.pos.x in
      let dy = sub p.y robot.pos.y in
      elim (Bool-cases (lt cfg.fov_distance (M.sqrt (add (mul dx dx) (mul dy dy))))) [
        | inl t ↦ λ h. inl t
        | inr n ↦ rw n (λ h. inr h)
      ]

  blocks-IsBlocker :
      (robot : Pose2 M) (p : Point2 M.double) (radius : Real) (o : Option (Object M))
      → blocks M cfg world robot p radius o ≡ true
      → IsBlocker robot p radius o
  unfolding blocks
  blocks-IsBlocker robot p radius none h = cc
  blocks-IsBlocker robot p radius (some o) h = ground (arith, h)

  pub is_occluded-IsHidden :
      (objects : List (Object M)) (active : List ℕ) (robot : Pose2 M) (p : Point2 M.double)
      → is_occluded M cfg world objects active robot p ≡ true
      → IsHidden objects active robot p
  unfolding is_occluded IsHidden
  is_occluded-IsHidden objects active robot p h =
      let radius_static = std_max M.double M.zero cfg.occlusion.static_blocker_radius in
      let radius_dyn = std_max M.double M.zero cfg.occlusion.dynamic_blocker_radius in
      let crossed : Bool =
        any_of (λ q. segment_intersects_circle M robot.pos p q radius_static)
          world.static_instances in
      let hidden : Bool =
        any_of (λ i. blocks M cfg world robot p radius_dyn (get_elem? objects i)) active in
      elim (Bool-cases ((lt M.zero radius_static && cfg.respect_map_geometry) && crossed)) [
        | inl t ↦
            let c : crossed ≡ true = ground (arith, t) in
            inl (
              ground (arith, t),
              ground (arith, t),
              any_of-Any _ _ (λ q k. k) world.static_instances c,
            )
        | inr n ↦
            let b : (lt M.zero radius_dyn && hidden) ≡ true = ground (arith, h, n) in
            let c : hidden ≡ true = ground (arith, b) in
            inr (
              ground (arith, b),
              any_of-Any _ _ (λ i. blocks-IsBlocker robot p radius_dyn (get_elem? objects i)) active
                  c,
            )
      ]
