-- ===== src/Sim/Object/Waypoints.antt =====
-- The waypoint index of a dynamic object of libs/sim/src/object.cpp under any calls of its methods.
use ddrl_nav2d.Prelude.{
  ℕ, ◌<◌, ◌≡◌, refl, Bool, true, List, [], ◌∷◌, length, arith, Bool-cases, inl, inr, ◌&&◌,
}
use ddrl_nav2d.Collision.Bounds.{Point2}
use ddrl_nav2d.Sim.Maths.{Maths, Pose2}
use ddrl_nav2d.Sim.Object.{
  DynamicObjectState, DynamicProfile, Object, is_active, sample_new_target_speed,
  schedule_next_random_stop, new_object, collide_in, on_collision, teleport, deactivate, activate,
  override_waypoints,
}
use ddrl_nav2d.Sim.Object.Motion.{
  head_along, integrate_motion, update_waypoint_following, check_waypoint_reached,
  advance_to_next_waypoint, change_speed, random_stop, update_motion, brake, resume, update,
  update_stopped, update_in, dwell_over, follow_route,
}

module _ (M : Maths) where
  -- A call of one of the methods that change the object.
  pub data Call : Type 0 where
    updated : M.Real → Call
    collided : Call
    teleported : Pose2 M → Call
    deactivated : Call
    activated : Call
    overridden : List (Point2 M.double) → Bool → Call

module _ (M : Maths) where
  abbrev pub call : Call M → Object M → Object M
  call (Call.updated dt) o = update M dt o
  call Call.collided o = on_collision M o
  call (Call.teleported pose) o = teleport M pose o
  call Call.deactivated o = deactivate M o
  call Call.activated o = activate M o
  call (Call.overridden ps loop) o = override_waypoints M ps loop o

  abbrev pub calls : List (Call M) → Object M → Object M
  calls [] o = o
  calls (c ∷ cs) o = calls cs (call c o)

  -- An object that is not inactive stands on a waypoint of its route, unless that is empty.
  abbrev InRange : Object M → Type 0
  InRange o =
      is_active M o ≡ true
      → 0 < length o.waypoints_world
      → o.current_waypoint_idx < length o.waypoints_world

  SameRoute : Object M → Object M → Type 0
  SameRoute o next =
      (next.state ≡ o.state)
      × (next.current_waypoint_idx ≡ o.current_waypoint_idx)
      × (next.waypoints_world ≡ o.waypoints_world)

  SameRoute-InRange : (o next : Object M) → SameRoute o next → InRange o → InRange next
  unfolding SameRoute is_active
  SameRoute-InRange o next (e, f, g) h = rw (e, f, g) h

  follow-SameRoute :
      (o : Object M) (ps : List (Point2 M.double)) → SameRoute o (follow_route M o ps)
  unfolding SameRoute head_along
  follow-SameRoute o ps = ground arith

  change_speed-SameRoute : (dt : M.Real) (o : Object M) → SameRoute o (change_speed M dt o)
  unfolding SameRoute change_speed
  change_speed-SameRoute dt o = ground arith

  advance-InRange : (o : Object M) → InRange (advance_to_next_waypoint M o)
  unfolding sample_new_target_speed is_active advance_to_next_waypoint
  advance-InRange o = ground arith

  random_stop-InRange :
      (o : Object M) → is_active M o ≡ true → InRange o → InRange (random_stop M o)
  unfolding random_stop schedule_next_random_stop is_active
  random_stop-InRange o a h e = h a

  moved-InRange :
      (dt : M.Real) (o : Object M)
      → InRange o
      → InRange (change_speed M dt (update_waypoint_following M o))
  unfolding update_waypoint_following
  moved-InRange dt o h =
      let followed = update_waypoint_following M o in
      SameRoute-InRange followed (change_speed M dt followed) (change_speed-SameRoute dt followed)
        (SameRoute-InRange o followed (follow-SameRoute o o.waypoints_world) h)

  update_motion-InRange :
      (dt : M.Real) (o : Object M)
      → is_active M o ≡ true
      → InRange o
      → InRange (update_motion M dt o)
  unfolding update_motion
  update_motion-InRange dt o a h =
      let followed = update_waypoint_following M o in
      let moved = change_speed M dt followed in
      elim (Bool-cases
        (M.lt M.zero o.next_random_stop_time && M.le o.next_random_stop_time o.sim_time)) [
          | inl t ↦ rw t (random_stop-InRange o a h)
          | inr f ↦ elim (Bool-cases (check_waypoint_reached M moved)) [
            | inl c ↦ rw (f, c) (advance-InRange moved)
            | inr c ↦ rw (f, c) (moved-InRange dt o h)
          ]
        ]

  resume-InRange : (o : Object M) → InRange (resume M o)
  unfolding resume head_along sample_new_target_speed is_active
  resume-InRange o = λ a h. ground arith

  brake-SameRoute : (dt : M.Real) (o : Object M) → SameRoute o (brake M dt o)
  unfolding SameRoute brake integrate_motion head_along
  brake-SameRoute dt o = (refl, refl, refl)

  integrate-SameRoute : (dt : M.Real) (o : Object M) → SameRoute o (integrate_motion M dt o)
  unfolding SameRoute integrate_motion
  integrate-SameRoute dt o = (refl, refl, refl)

  update_stopped-InRange :
      (dt : M.Real) (o : Object M) → InRange o → InRange (update_stopped M dt o)
  update_stopped-InRange dt o h = elim (Bool-cases (dwell_over M (brake M dt o))) [
    | inl t ↦ rw t (resume-InRange (brake M dt o))
    | inr f ↦ rw f (SameRoute-InRange o (brake M dt o) (brake-SameRoute dt o) h)
  ]

  update_in-InRange :
      (s : DynamicObjectState) (dt : M.Real) (o : Object M)
      → o.state ≡ s
      → InRange o
      → InRange (update_in M s dt o)
  unfolding is_active
  update_in-InRange DynamicObjectState.active dt o e h =
      SameRoute-InRange (update_motion M dt o) (integrate_motion M dt (update_motion M dt o))
        (integrate-SameRoute dt (update_motion M dt o)) (update_motion-InRange dt o (rw e refl) h)
  update_in-InRange DynamicObjectState.stopped dt o e h = update_stopped-InRange dt o h
  update_in-InRange DynamicObjectState.inactive dt o e h = h

  collide_in-InRange :
      (s : DynamicObjectState) (o : Object M) → o.state ≡ s → InRange o → InRange (collide_in M s o)
  unfolding is_active
  collide_in-InRange s o e h = ground arith

  call-InRange : (c : Call M) (o : Object M) → InRange o → InRange (call c o)
  unfolding update on_collision teleport deactivate activate override_waypoints
      sample_new_target_speed schedule_next_random_stop is_active
  call-InRange (Call.updated dt) o h =
      update_in-InRange o.state dt (record o { sim_time = M.add o.sim_time dt }) refl h
  call-InRange Call.collided o h = collide_in-InRange o.state o refl h
  call-InRange (Call.teleported pose) o h = λ a b. b
  call-InRange Call.deactivated o h = λ a b. ground arith
  call-InRange Call.activated o h = λ a b. b
  call-InRange (Call.overridden ps loop) o h = λ a b. b

  keeps-InRange : (cs : List (Call M)) (o : Object M) → InRange o → InRange (calls cs o)
  keeps-InRange [] o h = h
  keeps-InRange (c ∷ cs) o h = keeps-InRange cs (call c o) (call-InRange c o h)

  -- Whatever calls of its methods follow the constructor, an object that is not inactive has a
  -- waypoint index inside its route, if its route is not empty.
  pub waypoint_in_range :
      (object_id : ℕ) (pose : Pose2 M) (profile : DynamicProfile M) (cs : List (Call M))
      → is_active M (calls cs (new_object M object_id pose profile)) ≡ true
      → 0 < length (calls cs (new_object M object_id pose profile)).waypoints_world
      → (calls cs (new_object M object_id pose profile)).current_waypoint_idx
        < length (calls cs (new_object M object_id pose profile)).waypoints_world
  unfolding new_object sample_new_target_speed schedule_next_random_stop
  waypoint_in_range object_id pose profile cs =
      keeps-InRange cs (new_object M object_id pose profile) (λ a b. b)
