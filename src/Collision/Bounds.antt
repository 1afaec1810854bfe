-- ===== src/Collision/Bounds.antt =====
-- `AABB2` of libs/core/include/core/geom/aabb.hpp, over the operations on `double` that it uses.
-- The comparisons `<` and `<=` are separate operations, since a NaN makes both false; `IsOrdered`
-- states what holds away from NaN.
use ddrl_nav2d.Prelude.{◌≡◌, Bool, true, false, not, ◌&&◌, if◌then◌else◌, arith, ℕ}

pub record Double : Type 1 where
  pub Real : Type 0
  pub lt : Real → Real → Bool
  pub le : Real → Real → Bool
  pub add : Real → Real → Real
  pub sub : Real → Real → Real
  pub mul : Real → Real → Real
  pub zero : Real
  pub half : Real

pub record IsOrdered (D : Double) : Type 0 where
  pub lt-eq-not-le : (a b : D.Real) → D.lt a b ≡ not (D.le b a)
  pub le_refl : (a : D.Real) → D.le a a ≡ true
  pub le_trans : (a b c : D.Real) → D.le a b ≡ true → D.le b c ≡ true → D.le a c ≡ true
  pub le_total : (a b : D.Real) → D.le a b ≡ false → D.le b a ≡ true

pub record Point2 (D : Double) : Type 0 where
  pub x : D.Real
  pub y : D.Real

pub record Aabb2 (D : Double) : Type 0 where
  pub min : Point2 D
  pub max : Point2 D

module _ (D : Double) where
  open D use {Real, lt, le, add, sub, mul, half}

  -- `std::min` and `std::max` return their first argument when the two compare equal.
  unfoldable pub std_min : Real → Real → Real
  std_min a b = if lt b a then b else a

  unfoldable pub std_max : Real → Real → Real
  std_max a b = if lt a b then b else a

  -- `AABB2{}`
  abbrev pub no_bounds : Aabb2 D
  no_bounds = record {
    min = record { x = D.zero; y = D.zero };
    max = record { x = D.zero; y = D.zero };
  }

  unfoldable pub center : Aabb2 D → Point2 D
  center b = record { x = mul (add b.min.x b.max.x) half; y = mul (add b.min.y b.max.y) half }

  unfoldable pub intersects : Aabb2 D → Aabb2 D → Bool
  intersects b o =
      (le b.min.x o.max.x && le o.min.x b.max.x) && (le b.min.y o.max.y && le o.min.y b.max.y)

  unfoldable pub merge : Aabb2 D → Aabb2 D → Aabb2 D
  merge b o = record {
    min = record { x = std_min b.min.x o.min.x; y = std_min b.min.y o.min.y };
    max = record { x = std_max b.max.x o.max.x; y = std_max b.max.y o.max.y };
  }

  unfoldable pub longest_axis : Aabb2 D → ℕ
  longest_axis b = if lt (sub b.max.y b.min.y) (sub b.max.x b.min.x) then 0 else 1

module _ (D : Double) (ordered : IsOrdered D) where
  open D use {Real, le}
  open ordered use {lt-eq-not-le, le_refl, le_trans, le_total}

  std_min-le : (a b : Real) → (le (std_min D a b) a ≡ true) × (le (std_min D a b) b ≡ true)
  unfolding std_min
  std_min-le a b = ground (arith, lt-eq-not-le b a, le_refl a, le_refl b, le_total a b)

  le-std_max : (a b : Real) → (le a (std_max D a b) ≡ true) × (le b (std_max D a b) ≡ true)
  unfolding std_max
  le-std_max a b = ground (arith, lt-eq-not-le a b, le_refl a, le_refl b, le_total b a)

  -- A box that meets one of two boxes meets their merge.
  pub intersects-merge_left :
      (a b q : Aabb2 D) → intersects D a q ≡ true → intersects D (merge D a b) q ≡ true
  unfolding intersects merge
  intersects-merge_left a b q h = ground (
    arith,
    std_min-le a.min.x b.min.x,
    std_min-le a.min.y b.min.y,
    le-std_max a.max.x b.max.x,
    le-std_max a.max.y b.max.y,
    le_trans (std_min D a.min.x b.min.x) a.min.x q.max.x,
    le_trans (std_min D a.min.y b.min.y) a.min.y q.max.y,
    le_trans q.min.x a.max.x (std_max D a.max.x b.max.x),
    le_trans q.min.y a.max.y (std_max D a.max.y b.max.y),
  )

  pub intersects-merge_right :
      (a b q : Aabb2 D) → intersects D b q ≡ true → intersects D (merge D a b) q ≡ true
  unfolding intersects merge
  intersects-merge_right a b q h = ground (
    arith,
    std_min-le a.min.x b.min.x,
    std_min-le a.min.y b.min.y,
    le-std_max a.max.x b.max.x,
    le-std_max a.max.y b.max.y,
    le_trans (std_min D a.min.x b.min.x) b.min.x q.max.x,
    le_trans (std_min D a.min.y b.min.y) b.min.y q.max.y,
    le_trans q.min.x b.max.x (std_max D a.max.x b.max.x),
    le_trans q.min.y b.max.y (std_max D a.max.y b.max.y),
  )
