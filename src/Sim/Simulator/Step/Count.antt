-- ===== src/Sim/Simulator/Step/Count.antt =====
-- Acting and integrating leave the count of decision steps of libs/sim/src/simulator.cpp alone.
use ddrl_nav2d.Prelude.{
  ℕ, zero, suc, ◌≡◌, refl, ◌∙◌, Bool, true, false, List, Option, none, some, Bool-cases, inl, inr,
  if-both,
}
use ddrl_nav2d.Sim.Simulator.{
  Parts, Options, Simulator, track_collision, take_reward, after_publish, publish_world_snapshot,
  after_update, pass_at, pass, continue, integrate_loop, integrate_until,
}
use ddrl_nav2d.Sim.Simulator.Step.{apply_action_if_requested}
use ddrl_nav2d.Sim.Simulator.Loop.{publish-outcome}

module _ (P : Parts) (opts : Options P) where
  unfoldable pub HasCount : ℕ → Bool × Simulator P → Type 0
  HasCount n (ok, s) = s.episode_step_count ≡ n

  pub publish-HasCount :
      (time : P.Real) (force : Bool) (s : Simulator P)
      → HasCount s.episode_step_count (publish_world_snapshot P opts time force s)
  unfolding HasCount
  publish-HasCount time force s =
      publish-outcome P opts (HasCount s.episode_step_count) time force s refl (λ world. refl)
        (λ snapshot world. go (P.publish time snapshot s.bus) (record s { world = some world }))
    where
      go :
          (r : Bool × P.Bus) (t : Simulator P)
          → HasCount t.episode_step_count (after_publish P opts time r t)
      go (true, bus) t = refl
      go (false, bus) t = refl

  track-count :
      (dt : P.Real) (report : Option (P.Severity × List P.Contact)) (s : Simulator P)
      → (track_collision P opts dt report s).episode_step_count ≡ s.episode_step_count
  unfolding track_collision
  track-count dt none s = refl
  track-count dt (some r) s = refl

  reward-count :
      (dt : P.Real) (world : P.World) (reward : Option P.Reward) (s : Simulator P)
      → (take_reward P opts dt world reward s).episode_step_count ≡ s.episode_step_count
  unfolding take_reward
  reward-count dt world none s = refl
  reward-count dt world (some r) s = refl

  after_update-HasCount :
      (dt : P.Real) (r : Bool × P.World) (s : Simulator P)
      → HasCount s.episode_step_count (after_update P opts dt r s)
  unfolding HasCount
  after_update-HasCount dt (false, world) s = refl
  after_update-HasCount dt (true, world) s =
      let report = P.consume_collision_report world in
      let moved : Simulator P = record s {
        world = some report.1;
        sim_time_s = P.add s.sim_time_s dt;
      } in
      let tracked = track_collision P opts dt report.0 moved in
      let rewarded = take_reward P opts dt report.1 tracked.reward_fn tracked in
      publish-HasCount rewarded.sim_time_s false rewarded
      ∙ reward-count dt report.1 tracked.reward_fn tracked
      ∙ track-count dt report.0 moved

  pass_at-HasCount :
      (world : Option P.World) (dt : P.Real) (s : Simulator P)
      → HasCount s.episode_step_count (pass_at P opts world dt s)
  unfolding HasCount
  pass_at-HasCount none dt s = refl
  pass_at-HasCount (some world) dt s = after_update-HasCount dt (P.update dt world) s

  continue-HasCount :
      (n : ℕ) (r : Bool × Simulator P) (more : Simulator P → Bool × Simulator P)
      → ((u : Simulator P) → HasCount u.episode_step_count (more u))
      → HasCount n r
      → HasCount n (continue P opts r more)
  unfolding HasCount
  continue-HasCount n (false, s) more kept h = h
  continue-HasCount n (true, s) more kept h = kept s ∙ h

  integrate_loop-HasCount :
      (n : ℕ) (target_time : P.Real) (s : Simulator P)
      → HasCount s.episode_step_count (integrate_loop P opts n target_time s)
  unfolding integrate_loop HasCount
  integrate_loop-HasCount zero target_time s = refl
  integrate_loop-HasCount (suc n) target_time s =
      elim (Bool-cases (P.lt (P.add s.sim_time_s P.eps) target_time)) [
        | inl t ↦ rw t (
            continue-HasCount s.episode_step_count (pass P opts target_time s) _
              (λ u. integrate_loop-HasCount n target_time u) (pass_at-HasCount s.world _ s))
        | inr f ↦ rw f refl
      ]

  pub integrate_until-HasCount :
      (n : ℕ) (target_time : P.Real) (s : Simulator P)
      → HasCount s.episode_step_count (integrate_until P opts n target_time s)
  unfolding integrate_until HasCount
  integrate_until-HasCount n target_time s =
      if-both (HasCount s.episode_step_count) (P.le opts.fixed_dt P.zero) {x = (false, s)} {y = _}
        refl (integrate_loop-HasCount n target_time s)

  pub apply-HasCount :
      (action : Option P.Action) (world : P.World) (s : Simulator P)
      → HasCount s.episode_step_count (apply_action_if_requested P opts action world s)
  unfolding HasCount
  apply-HasCount none world s = refl
  apply-HasCount (some action) world s = refl
