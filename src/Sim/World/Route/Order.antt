-- ===== src/Sim/World/Route/Order.antt =====
-- The order in which libs/sim/src/world.cpp lets a robot reach its waypoints.
use ddrl_nav2d.Prelude.{
  ℕ, zero, suc, ◌+◌, ◌-◌, ◌≡◌, refl, min, Bool, true, false, ◌&&◌, if◌then◌else◌, List, [], ◌∷◌,
  Option, none, some, length, get_elem?, ltb, leb, Bool-cases, inl, inr, arith, drop, drop-nil,
  if-both, subst,
}
use ddrl_nav2d.Collision.Bounds.{Point2}
use ddrl_nav2d.Sim.Maths.{Maths, Pose2}
use ddrl_nav2d.Sim.World.Route.{
  ActiveWaypoint, ActiveRoute, RouteTelemetry, RobotRoute, follow, select_route, current_waypoint,
  within, progress, route_telemetry,
}

module _ (M : Maths) where
  -- `reward_telemetry` at one position after another.
  abbrev after :
      Option (RouteTelemetry M × ActiveRoute M)
      → (ActiveRoute M → Option (ActiveRoute M))
      → Option (ActiveRoute M)
  after none more = none
  after (some t) more = more t.1

  abbrev pub travel : List (Point2 M.double) → ActiveRoute M → Option (ActiveRoute M)
  travel [] r = some r
  travel (p ∷ ps) r = after (route_telemetry M p r) (λ t. travel ps t)

  -- Whether the positions come within the waypoints, one after the other, each position serving for
  -- one waypoint at most.
  abbrev pub visits : List (ActiveWaypoint M) → List (Point2 M.double) → Bool
  visits [] ps = true
  visits (w ∷ ws) [] = false
  visits (w ∷ ws) (p ∷ ps) =
      let on = visits ws ps in let stay = visits (w ∷ ws) ps in if within M w p then on else stay

  abbrev route_at : List (ActiveWaypoint M) → Pose2 M → ℕ → Bool → ActiveRoute M
  route_at l start i done = record {
    active_route_start_pose = start;
    active_route = l;
    active_waypoint_index = i;
    final_goal_reached = done;
  }

module _ {ℓ} {A : Type ℓ} where
  drop-facts :
      (i : ℕ) (l : List A) (w : A) (ws : List A)
      → drop i l ≡ w ∷ ws
      → (get_elem? l i ≡ some w) × ((drop (suc i) l ≡ ws) × (length l ≡ suc i + length ws))
  drop-facts i [] w ws e = absurd (ground (arith, drop-nil {A = A} i))
  drop-facts zero (x ∷ xs) w ws e = (cc, (cc, ground arith))
  drop-facts (suc i) (x ∷ xs) w ws e =
      let t = drop-facts i xs w ws e in (t.0, (t.1.0, omega (arith, t.1.1)))

module _ (M : Maths) where
  abbrev pub final_of : Option (ActiveRoute M) → Option Bool
  final_of none = none
  final_of (some r) = some r.final_goal_reached

  current :
      (r : ActiveRoute M) (w : ActiveWaypoint M) (ws : List (ActiveWaypoint M))
      → drop r.active_waypoint_index r.active_route ≡ w ∷ ws
      → current_waypoint M r ≡ some w
  unfolding current_waypoint
  current r w ws e =
      let facts = drop-facts r.active_waypoint_index r.active_route w ws e in
      let same : min r.active_waypoint_index (length r.active_route - 1) ≡ r.active_waypoint_index =
        omega (arith, facts.1.1) in
      rw same facts.0

  travel-final :
      (ps : List (Point2 M.double)) (l : List (ActiveWaypoint M)) (start : Pose2 M) (i : ℕ)
      (w : ActiveWaypoint M) (ws : List (ActiveWaypoint M))
      → drop i l ≡ w ∷ ws
      → final_of (travel M ps (route_at M l start i true)) ≡ some true
  unfolding route_telemetry progress
  travel-final [] l start i w ws e = refl
  travel-final (p ∷ ps) l start i w ws e =
      rw (current (route_at M l start i true) w ws e) (travel-final ps l start i w ws e)

  travel-visits :
      (ps : List (Point2 M.double)) (l : List (ActiveWaypoint M)) (start : Pose2 M) (i : ℕ)
      (w : ActiveWaypoint M) (ws : List (ActiveWaypoint M))
      → drop i l ≡ w ∷ ws
      → final_of (travel M ps (route_at M l start i false)) ≡ some (visits M (w ∷ ws) ps)
  unfolding route_telemetry progress
  travel-visits [] l start i w ws e = refl
  travel-visits (p ∷ ps) l start i w [] e =
      let facts = drop-facts i l w [] e in
      let last : leb (length l) (suc i) ≡ true = ground (arith, facts.1.1) in
      elim (Bool-cases (within M w p)) [
        | inl t ↦
            rw (current (route_at M l start i false) w [] e, t, last)
              (travel-final ps l start i w [] e)
        | inr f ↦
            rw (current (route_at M l start i false) w [] e, f) (travel-visits ps l start i w [] e)
      ]
  travel-visits (p ∷ ps) l start i w (v ∷ vs) e =
      let facts = drop-facts i l w (v ∷ vs) e in
      let more : leb (length l) (suc i) ≡ false = ground (arith, facts.1.1) in
      elim (Bool-cases (within M w p)) [
        | inl t ↦
            rw (current (route_at M l start i false) w (v ∷ vs) e, t, more)
              (travel-visits ps l start (suc i) v vs facts.1.0)
        | inr f ↦
            rw (current (route_at M l start i false) w (v ∷ vs) e, f)
              (travel-visits ps l start i w (v ∷ vs) e)
      ]

  -- A route that was chosen is finished exactly as its waypoints are visited.
  InOrder : List (Point2 M.double) → Option (ActiveRoute M × M.Engine) → Type 0
  InOrder ps none = Unit
  InOrder ps (some (r, rng)) = final_of (travel M ps r) ≡ some (visits M r.active_route ps)

  points-InOrder :
      (ps : List (Point2 M.double)) (randomize : Bool) (rng : M.Engine) (start : Pose2 M)
      (ws : List (ActiveWaypoint M))
      → InOrder ps (follow M randomize rng (some (record { start = start; waypoints = ws })))
  unfolding InOrder
  points-InOrder ps randomize rng start [] = tt
  points-InOrder ps randomize rng start (w ∷ ws) = travel-visits ps (w ∷ ws) _ 0 w ws refl

  follow-InOrder :
      (ps : List (Point2 M.double)) (randomize : Bool) (rng : M.Engine)
      (route : Option (RobotRoute M))
      → InOrder ps (follow M randomize rng route)
  unfolding InOrder
  follow-InOrder ps randomize rng none = tt
  follow-InOrder ps randomize rng (some route) =
      points-InOrder ps randomize rng route.start route.waypoints

  -- Take a route that select_route chose, and call reward_telemetry at any positions of the robot:
  -- none of the calls throws, and the final goal is reached afterwards exactly if the positions come
  -- within the tolerance of every waypoint of the route, in their order, each position serving for
  -- one waypoint at most.
  pub goal_in_order :
      (uniform_int : ℕ → M.Engine → ℕ × M.Engine) (randomize : Bool) (routes : List (RobotRoute M))
      (rng : M.Engine) (positions : List (Point2 M.double)) (r : ActiveRoute M) (rng' : M.Engine)
      → select_route M uniform_int randomize routes rng ≡ some (r, rng')
      → final_of (travel M positions r) ≡ some (visits M r.active_route positions)
  unfolding select_route InOrder
  goal_in_order uniform_int randomize routes rng positions r rng' e =
      subst (λ o. InOrder positions o) e
        (if-both (InOrder positions) (randomize && ltb 1 (length routes))
          (follow-InOrder positions randomize _ _) (follow-InOrder positions randomize rng _))
