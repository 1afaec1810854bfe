-- ===== src/Sim/Simulator/Loop.antt =====
-- The loop over physics steps of libs/sim/src/simulator.cpp ends.
use ddrl_nav2d.Prelude.{
  ℕ, zero, suc, ◌≤◌, ◌<◌, ◌≡◌, refl, subst, ◌∙◌, Bool, true, false, not, ◌&&◌, ◌||◌, List, Option,
  none, some, Bool-cases, inl, inr, if-both, arith,
}
use ddrl_nav2d.Collision.Bounds.{std_min}
use ddrl_nav2d.Sim.Simulator.{
  Parts, Options, Simulator, track_collision, take_reward, after_publish, publish_snapshot,
  publish_from, publish_world_snapshot, after_update, pass_at, pass, continue, integrate_loop,
  integrate_until,
}

module _ (P : Parts) (opts : Options P) where
  -- A pass that went well moves the time on.
  Moved : P.Real → Bool × Simulator P → Type 0
  Moved time (ok, s) = s.sim_time_s ≡ time

  -- What holds of every outcome of a publication holds of the publication.
  pub publish-outcome :
      (Q : Bool × Simulator P → Type 0) (time : P.Real) (force : Bool) (s : Simulator P)
      → Q (true, s)
      → ((world : P.World) → Q (true, record s { world = some world }))
      → ((snapshot : P.Snapshot) (world : P.World)
          → Q (
              after_publish P opts time
                (P.publish time snapshot s.bus)
                (record s { world = some world })))
      → Q (publish_world_snapshot P opts time force s)
  unfolding publish_world_snapshot
  publish-outcome Q time force s same captured told =
      if-both Q (not opts.visualization_enabled || not (P.has_bus s.bus)) {x = (true, s)} {y = _}
        same (from s.world)
    where
      snapped : (r : Option P.Snapshot × P.World) → Q (publish_snapshot P opts time r s)
      snapped (none, world) = captured world
      snapped (some snapshot, world) = told snapshot world

      from : (world : Option P.World) → Q (publish_from P opts world time force s)
      from none = same
      from (some world) =
          if-both Q (not force && P.lt (P.add time P.eps) s.next_viz_publish_time) {x = (true, s)}
            {y = _} same (snapped (P.capture_snapshot world))

  publish-Moved :
      (time : P.Real) (force : Bool) (s : Simulator P)
      → Moved s.sim_time_s (publish_world_snapshot P opts time force s)
  unfolding Moved
  publish-Moved time force s =
      publish-outcome (Moved s.sim_time_s) time force s refl (λ world. refl)
        (λ snapshot world. go (P.publish time snapshot s.bus) (record s { world = some world }))
    where
      go : (r : Bool × P.Bus) (t : Simulator P) → Moved t.sim_time_s (after_publish P opts time r t)
      go (true, bus) t = refl
      go (false, bus) t = refl

  track-time :
      (dt : P.Real) (report : Option (P.Severity × List P.Contact)) (s : Simulator P)
      → (track_collision P opts dt report s).sim_time_s ≡ s.sim_time_s
  unfolding track_collision
  track-time dt none s = refl
  track-time dt (some r) s = refl

  reward-time :
      (dt : P.Real) (world : P.World) (reward : Option P.Reward) (s : Simulator P)
      → (take_reward P opts dt world reward s).sim_time_s ≡ s.sim_time_s
  unfolding take_reward
  reward-time dt world none s = refl
  reward-time dt world (some r) s = refl

  -- The time of the outcome, if it is not an error.
  unfoldable pub Ok : P.Real → Bool × Simulator P → Type 0
  Ok time (false, s) = Unit
  Ok time (true, s) = s.sim_time_s ≡ time

  Moved-Ok : (time : P.Real) (r : Bool × Simulator P) → Moved time r → Ok time r
  unfolding Moved Ok
  Moved-Ok time (true, s) h = h
  Moved-Ok time (false, s) h = tt

  after_update-Ok :
      (dt : P.Real) (r : Bool × P.World) (s : Simulator P)
      → Ok (P.add s.sim_time_s dt) (after_update P opts dt r s)
  unfolding Ok Moved
  after_update-Ok dt (false, world) s = tt
  after_update-Ok dt (true, world) s =
      let report = P.consume_collision_report world in
      let moved : Simulator P = record s {
        world = some report.1;
        sim_time_s = P.add s.sim_time_s dt;
      } in
      let tracked = track_collision P opts dt report.0 moved in
      let rewarded = take_reward P opts dt report.1 tracked.reward_fn tracked in
      let same = reward-time dt report.1 tracked.reward_fn tracked ∙ track-time dt report.0 moved in
      subst (λ t. Ok t (publish_world_snapshot P opts rewarded.sim_time_s false rewarded)) same
        (Moved-Ok rewarded.sim_time_s _ (publish-Moved rewarded.sim_time_s false rewarded))

  pub pass-Ok :
      (target_time : P.Real) (s : Simulator P)
      → Ok
          (P.add s.sim_time_s (std_min P.double opts.fixed_dt (P.sub target_time s.sim_time_s)))
          (pass P opts target_time s)
  unfolding Ok
  pass-Ok target_time s = go s.world
    where
      dt : P.Real
      dt = std_min P.double opts.fixed_dt (P.sub target_time s.sim_time_s)

      go : (world : Option P.World) → Ok (P.add s.sim_time_s dt) (pass_at P opts world dt s)
      go none = tt
      go (some world) = after_update-Ok dt (P.update dt world) s

pub not_true : false ≡ true → ⊥
not_true h = ground arith

pub no_less : {a b : ℕ} → a < b → b ≤ 0 → ⊥
no_less h k = omega arith

pub less_left : {a b n : ℕ} → a < b → b ≤ suc n → a ≤ n
less_left h k = omega arith

-- How many passes are left, where a pass before the target leaves fewer.
pub record IsMeasured (P : Parts) (opts : Options P) (left : P.Real → P.Real → ℕ) : Type 0 where
  pub fewer :
      (target_time time : P.Real)
      → P.lt (P.add time P.eps) target_time ≡ true
      → left target_time (P.add time (std_min P.double opts.fixed_dt (P.sub target_time time)))
        < left target_time time

module _ (P : Parts) (opts : Options P) (left : P.Real → P.Real → ℕ)
    (measured : IsMeasured P opts left) where
  open measured use {fewer}

  -- An error, or the end of the loop by its own test.
  unfoldable pub Ended : P.Real → Bool × Simulator P → Type 0
  Ended target_time (false, s) = Unit
  Ended target_time (true, s) = P.lt (P.add s.sim_time_s P.eps) target_time ≡ false

  continue-Ended :
      (n : ℕ) (target_time : P.Real) (r : Bool × Simulator P) (time : P.Real)
      → (more : Simulator P → Bool × Simulator P)
      → ((u : Simulator P) → left target_time u.sim_time_s ≤ n → Ended target_time (more u))
      → Ok P opts time r
      → left target_time time ≤ n
      → Ended target_time (continue P opts r more)
  unfolding Ok Ended
  continue-Ended n target_time (false, s) time more ended o h = tt
  continue-Ended n target_time (true, s) time more ended o h = ended s (rw o h)

  pub integrate_loop-Ended :
      (n : ℕ) (target_time : P.Real) (s : Simulator P)
      → left target_time s.sim_time_s ≤ n
      → Ended target_time (integrate_loop P opts n target_time s)
  unfolding integrate_loop Ended
  integrate_loop-Ended zero target_time s h =
      elim (Bool-cases (P.lt (P.add s.sim_time_s P.eps) target_time)) [
        | inl t ↦ elim (no_less (fewer target_time s.sim_time_s t) h) [ ]
        | inr f ↦ rw f f
      ]
  integrate_loop-Ended (suc n) target_time s h =
      elim (Bool-cases (P.lt (P.add s.sim_time_s P.eps) target_time)) [
        | inl t ↦ rw t (
            continue-Ended n target_time (pass P opts target_time s) _ _
              (λ u k. integrate_loop-Ended n target_time u k) (pass-Ok P opts target_time s)
              (less_left (fewer target_time s.sim_time_s t) h))
        | inr f ↦ rw f f
      ]

  Ended-time :
      (target_time : P.Real) (r : Bool × Simulator P)
      → Ended target_time r
      → r.0 ≡ true
      → P.lt (P.add r.1.sim_time_s P.eps) target_time ≡ false
  unfolding Ended
  Ended-time target_time (true, s) e ok = e
  Ended-time target_time (false, s) e ok = elim (not_true ok) [ ]

  -- With as many passes as are left, integrate_until either fails or ends by its own test: the time
  -- it returns is within eps of the target or past it.
  pub integrate_until_ends :
      (passes : ℕ) (target_time : P.Real) (s : Simulator P)
      → left target_time s.sim_time_s ≤ passes
      → (integrate_until P opts passes target_time s).0 ≡ true
      → P.lt (P.add (integrate_until P opts passes target_time s).1.sim_time_s P.eps) target_time
        ≡ false
  unfolding integrate_until
  integrate_until_ends passes target_time s h =
      if-both
        (λ (r : Bool × Simulator P).
          r.0 ≡ true → P.lt (P.add r.1.sim_time_s P.eps) target_time ≡ false)
        (P.le opts.fixed_dt P.zero) {x = (false, s)} {y = _} (λ ok. elim (not_true ok) [ ])
        (Ended-time target_time _ (integrate_loop-Ended passes target_time s h))
