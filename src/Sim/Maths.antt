-- ===== src/Sim/Maths.antt =====
-- The arithmetic and the random numbers that libs/sim uses, as parameters, and the helpers of
-- libs/core/include/core/math and libs/core/include/core/geom/aabb.hpp that it calls.
-- `decimal m k` is the literal m / 10 ^ k, and `turns` bounds the passes of each of the two loops
-- of `normalize_angle`, which subtract and add a full turn.
use ddrl_nav2d.Prelude.{ℕ, zero, suc, Bool, false, ◌&&◌, ◌||◌, if◌then◌else◌, List}
use ddrl_nav2d.Collision.Bounds.{Double, Point2, Aabb2}

pub record Maths : Type 1 where
  pub double : Double
  pub open double use *
  pub div : Real → Real → Real
  pub pow : Real → Real → Real
  pub neg : Real → Real
  pub fabs : Real → Real
  pub sqrt : Real → Real
  pub cos : Real → Real
  pub sin : Real → Real
  pub tan : Real → Real
  pub atan : Real → Real
  pub hypot : Real → Real → Real
  pub atan2 : Real → Real → Real
  pub pi : Real
  pub decimal : ℕ → ℕ → Real
  pub turns : ℕ
  -- `std::mt19937` and the distributions over it.
  pub Engine : Type 0
  pub engine : ℕ → Engine
  pub uniform_real : Real → Real → Engine → Real × Engine
  pub exponential : Real → Engine → Real × Engine
  pub discrete : List Real → Engine → ℕ × Engine

pub record Pose2 (M : Maths) : Type 0 where
  pub pos : Point2 M.double
  pub yaw : M.Real

pub record Twist2 (M : Maths) : Type 0 where
  pub linear : Point2 M.double
  pub angular : M.Real

module _ (M : Maths) where
  open M use {Real, lt, le, add, sub, mul, div, decimal, pi}

  abbrev pub point : Real → Real → Point2 M.double
  point a b = record { x = a; y = b }

  abbrev pub clamp : Real → Real → Real → Real
  clamp v lo hi = if lt v lo then lo else if lt hi v then hi else v

  unfoldable pub distance : Point2 M.double → Point2 M.double → Real
  distance a b = M.sqrt (add (mul (sub a.x b.x) (sub a.x b.x)) (mul (sub a.y b.y) (sub a.y b.y)))

  unfoldable pub contains : Aabb2 M.double → Point2 M.double → Bool
  contains b p = (le b.min.x p.x && le p.x b.max.x) && (le b.min.y p.y && le p.y b.max.y)

  unfoldable pub turn_down : ℕ → Real → Real
  turn_down zero angle = angle
  turn_down (suc n) angle =
      if lt pi angle then turn_down n (sub angle (mul (decimal 2 0) pi)) else angle

  unfoldable pub turn_up : ℕ → Real → Real
  turn_up zero angle = angle
  turn_up (suc n) angle =
      if lt angle (M.neg pi) then turn_up n (add angle (mul (decimal 2 0) pi)) else angle

  unfoldable pub normalize_angle : Real → Real
  normalize_angle angle = turn_up M.turns (turn_down M.turns angle)

  -- `Pose2::transform_point`
  unfoldable pub transform_point : Pose2 M → Point2 M.double → Point2 M.double
  transform_point pose p =
      point (add pose.pos.x (sub (mul (M.cos pose.yaw) p.x) (mul (M.sin pose.yaw) p.y)))
        (add pose.pos.y (add (mul (M.sin pose.yaw) p.x) (mul (M.cos pose.yaw) p.y)))

  -- The last lines of `segment_intersects_circle`, on the closest point of the segment.
  closer_than_end :
      Point2 M.double → Point2 M.double → Point2 M.double → Real → Point2 M.double → Bool
  closer_than_end start end_ center radius closest =
      let dist_x = sub center.x closest.x in
      let dist_y = sub center.y closest.y in
      if lt (mul radius radius) (add (mul dist_x dist_x) (mul dist_y dist_y))
      then false
      else lt
          (add (mul (sub center.x start.x) (sub center.x start.x))
            (mul (sub center.y start.y) (sub center.y start.y)))
          (add (mul (sub end_.x start.x) (sub end_.x start.x))
            (mul (sub end_.y start.y) (sub end_.y start.y)))

  unfoldable pub segment_intersects_circle :
      Point2 M.double → Point2 M.double → Point2 M.double → Real → Bool
  unfolding closer_than_end
  segment_intersects_circle start end_ center radius =
      let dx = sub end_.x start.x in
      let dy = sub end_.y start.y in
      let seg_len2 = add (mul dx dx) (mul dy dy) in
      let t = div (add (mul (sub center.x start.x) dx) (mul (sub center.y start.y) dy)) seg_len2 in
      if le radius M.zero
      then false
      else if le seg_len2 (decimal 1 6)
      then false
      else if le t M.zero || le (decimal 1 0) t
      then false
      else closer_than_end start end_ center radius
          (point (add start.x (mul t dx)) (add start.y (mul t dy)))
