-- ===== src/Sim/World/Severity.antt =====
-- `compute_collision_severity` and `narrow_phase_intersect_check` of libs/sim/src/world.cpp.
use ddrl_nav2d.Prelude.{ℕ, Bool, false, ◌||◌, if◌then◌else◌, List, [], ◌∷◌, length, leb, ◌==◌}
use ddrl_nav2d.Collision.Bounds.{Point2, std_min, std_max}
use ddrl_nav2d.Collision.Sat.{CollisionResult, Shape2p5, no_result}
use ddrl_nav2d.Collision.Sat.Shapes.{collide_shapes}
use ddrl_nav2d.Sim.Maths.{Maths, Pose2, Twist2, point, transform_point}
use ddrl_nav2d.Sim.Simulator.{Level}

module _ (M : Maths) where
  -- A part of a `ModelProfile`, with what the narrow phase reads of it.
  pub record ModelPart : Type 0 where
    pub rel_pose : Pose2 M
    pub geom : Shape2p5 M

  pub record CollisionSeverity : Type 0 where
    pub severity_level : Level
    pub score : M.Real
    pub penetration_depth : M.Real
    pub impact_velocity : M.Real
    pub robot_speed : M.Real
    pub contact_count : ℕ
    pub has_dynamic_contact : Bool

module _ (M : Maths) (Name : Type 0) where
  pub record CollisionContact : Type 0 where
    pub other_name : Name
    pub other_pose : Pose2 M
    pub other_is_dynamic : Bool

module _ (M : Maths) where
  open M use {Real, lt, le, add, sub, mul, div, zero, decimal, sqrt, cos, sin, fabs}

  -- `Pose2::operator*`
  unfoldable pub compose : Pose2 M → Pose2 M → Pose2 M
  compose a b = record { pos = transform_point M a b.pos; yaw = add a.yaw b.yaw }

  module _ (infinity : Real) where
    abbrev against : Shape2p5 M → Pose2 M → Pose2 M → List (ModelPart M) → CollisionResult M
    against geom pose b_pose [] = no_result M infinity
    against geom pose b_pose (b ∷ bs) =
        let result = collide_shapes M infinity geom pose b.geom (compose b_pose b.rel_pose) in
        let rest = against geom pose b_pose bs in if result.intersects then result else rest

    unfoldable pub narrow_phase_intersect_check :
        List (ModelPart M) → Pose2 M → List (ModelPart M) → Pose2 M → CollisionResult M
    narrow_phase_intersect_check [] a_pose bs b_pose = no_result M infinity
    narrow_phase_intersect_check (a ∷ as') a_pose bs b_pose =
        let result = against a.geom (compose a_pose a.rel_pose) b_pose bs in
        let rest = narrow_phase_intersect_check as' a_pose bs b_pose in
        if result.intersects then result else rest

  -- The robot's velocity in the frame of the world.
  abbrev in_world : Twist2 M → Pose2 M → Point2 M.double
  in_world velocity pose =
      point M (sub (mul velocity.linear.x (cos pose.yaw)) (mul velocity.linear.y (sin pose.yaw)))
        (add (mul velocity.linear.x (sin pose.yaw)) (mul velocity.linear.y (cos pose.yaw)))

  -- The loop's maxima of penetration and impact velocity, and whether a contact is dynamic.
  abbrev worst :
      {Name : Type 0}
      → Point2 M.double
      → List (CollisionContact M Name)
      → List (CollisionResult M)
      → (Real × Real) × Bool
      → (Real × Real) × Bool
  worst v [] results acc = acc
  worst v (c ∷ cs) [] acc = acc
  worst v (c ∷ cs) (r ∷ rs) ((depth, impact), dynamic) =
      let along = add (mul v.x r.normal.x) (mul v.y r.normal.y) in
      worst v cs rs (
        (
          std_max M.double depth r.penetration_depth,
          if lt along zero then std_max M.double impact (fabs along) else impact,
        ),
        dynamic || c.other_is_dynamic,
      )

  -- A score from three thresholds, and below the first a share of it.
  abbrev graded : Real → Real → Real → Real → Real
  graded value low mid high =
      if le high value
      then decimal 1 0
      else if le mid value
      then decimal 6 1
      else if le low value
      then decimal 3 1
      else std_min M.double (decimal 1 0) (mul (div value low) (decimal 3 1))

  unfoldable pub penetration_score : Real → Real
  penetration_score value = graded value (decimal 1 2) (decimal 5 2) (decimal 15 2)

  unfoldable pub speed_score : Real → Real
  speed_score value = graded value (decimal 5 1) (decimal 15 1) (decimal 3 0)

  unfoldable pub impact_score : Real → Real
  impact_score value =
      if le (decimal 2 0) value
      then decimal 1 0
      else if le (decimal 1 0) value
      then decimal 6 1
      else if le (decimal 3 1) value
      then decimal 3 1
      else if lt zero value
      then std_min M.double (decimal 1 0) (mul (div value (decimal 3 1)) (decimal 3 1))
      else zero

  unfoldable pub contact_score : ℕ → Real
  contact_score n = if leb 3 n then decimal 1 0 else if n == 2 then decimal 5 1 else decimal 2 1

  unfoldable pub level_of : Real → Level
  level_of score =
      if le (decimal 75 2) score
      then Level.critical
      else if le (decimal 50 2) score
      then Level.severe
      else if le (decimal 30 2) score
      then Level.moderate
      else if le (decimal 10 2) score
      then Level.minor
      else Level.no_collision

  abbrev weighted : Real → Real → Real → ℕ → Bool → Real
  weighted depth impact speed count dynamic =
      add
        (add
          (add
            (add (mul (decimal 30 2) (penetration_score depth))
              (mul (decimal 25 2) (impact_score impact)))
            (mul (decimal 20 2) (speed_score speed)))
          (mul (decimal 15 2) (contact_score count)))
        (mul (decimal 10 2) (if dynamic then decimal 1 0 else zero))

  abbrev pub no_severity : CollisionSeverity M
  no_severity = record {
    severity_level = Level.no_collision;
    score = zero;
    penetration_depth = zero;
    impact_velocity = zero;
    robot_speed = zero;
    contact_count = 0;
    has_dynamic_contact = false;
  }

  unfoldable pub compute_collision_severity :
      {Name : Type 0}
      → List (CollisionContact M Name)
      → List (CollisionResult M)
      → Twist2 M
      → Pose2 M
      → CollisionSeverity M
  compute_collision_severity [] results velocity pose = no_severity
  compute_collision_severity (c ∷ cs) results velocity pose =
      let v = in_world velocity pose in
      let speed = sqrt (add (mul v.x v.x) (mul v.y v.y)) in
      let found = worst v (c ∷ cs) results ((zero, zero), false) in
      let score = weighted found.0.0 found.0.1 speed (length (c ∷ cs)) found.1 in
      record {
        severity_level = level_of score;
        score = score;
        penetration_depth = found.0.0;
        impact_velocity = found.0.1;
        robot_speed = speed;
        contact_count = length (c ∷ cs);
        has_dynamic_contact = found.1;
      }
