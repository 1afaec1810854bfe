-- ===== src/Sim/Simulator/Reset/Fresh.antt =====
-- What every call of `reset` of libs/sim/src/simulator.cpp leaves behind.
use ddrl_nav2d.Prelude.{ℕ, ◌≡◌, refl, subst, Bool, true, false, Option, none, some, if◌then◌else◌}
use ddrl_nav2d.Sim.Spawn.{increment}
use ddrl_nav2d.Sim.Curriculum.{CurriculumPhase, Progress, end_episode, current_phase}
use ddrl_nav2d.Sim.Simulator.{Parts, Options, Simulator, after_publish, publish_world_snapshot}
use ddrl_nav2d.Sim.Simulator.Loop.{publish-outcome}
use ddrl_nav2d.Sim.Simulator.Reset.{
  Resources, ResetResult, Episodes, pick_phase_map, close_episode, fresh, published_reset, observed,
  enter, with_map, reset,
}

-- The state of an episode before its first step.
abbrev pub IsFresh : (P : Parts) → ℕ → Simulator P → Type 0
IsFresh P index s =
    (s.sim_time_s ≡ P.zero)
    × (s.episode_step_count ≡ 0)
    × (s.episode_terminal ≡ false)
    × (s.accumulated_reward ≡ P.zero)
    × (s.episode_return ≡ P.zero)
    × (s.collision_dwell_time ≡ P.zero)
    × (s.have_last_episode_result ≡ false)
    × (s.episode_index ≡ index)

module _ (P : Parts) (opts : Options P) where
  publish-IsFresh :
      (n : ℕ) (time : P.Real) (force : Bool) (s : Simulator P)
      → IsFresh P n s
      → IsFresh P n (publish_world_snapshot P opts time force s).1
  publish-IsFresh n time force s h =
      publish-outcome P opts (λ r. IsFresh P n r.1) time force s h (λ world. h)
        (λ snapshot world. go (P.publish time snapshot s.bus) (record s { world = some world }) h)
    where
      go :
          (r : Bool × P.Bus) (t : Simulator P)
          → IsFresh P n t
          → IsFresh P n (after_publish P opts time r t).1
      go (true, bus) t k = k
      go (false, bus) t k = k

module _ (P : Parts) (opts : Options P) (R : Resources P) where
  abbrev pub next_index : Episodes P R → ℕ
  next_index s =
      if s.initialized then increment s.simulator.episode_index else s.simulator.episode_index

  -- What holds of an outcome of `reset`.
  Outcome : Progress → ℕ → Option (ResetResult P) × Episodes P R → Type 0
  Outcome progress index (none, t) =
      (t.progress ≡ progress) × (t.simulator.have_last_episode_result ≡ false)
  Outcome progress index (some result, t) =
      ((t.progress ≡ progress) × (t.simulator.have_last_episode_result ≡ false))
      × ((result.episode_index ≡ index) × ((t.initialized ≡ true) × IsFresh P index t.simulator))

  published-Outcome :
      (n : ℕ) (obs : P.Observation) (r : Bool × Simulator P) (s : Episodes P R)
      → s.initialized ≡ true
      → IsFresh P n r.1
      → Outcome s.progress n (published_reset P opts R obs r s)
  unfolding Outcome
  published-Outcome n obs (false, sim) s i f = (refl, f.6)
  published-Outcome n obs (true, sim) s i f = ((refl, f.6), (f.7, (i, f)))

  observed-Outcome :
      (n : ℕ) (o : Option P.Observation × P.World) (s : Episodes P R)
      → s.initialized ≡ true
      → IsFresh P n s.simulator
      → Outcome s.progress n (observed P opts R o s)
  unfolding Outcome
  observed-Outcome n (none, world) s i f = (refl, f.6)
  observed-Outcome n (some obs, world) s i f =
      let sim : Simulator P = record s.simulator { world = some world } in
      published-Outcome n obs (publish_world_snapshot P opts sim.sim_time_s true sim) s i
        (publish-IsFresh P opts n sim.sim_time_s true sim f)

  enter-Outcome :
      (world : Option P.World) (map : R.Map) (s : Episodes P R)
      → s.simulator.have_last_episode_result ≡ false
      → Outcome s.progress (next_index s) (enter P opts R world map s)
  unfolding Outcome
  enter-Outcome none map s h = (refl, h)
  enter-Outcome (some world) map s h =
      observed-Outcome (next_index s) (R.build_initial_observation P.zero world)
        (fresh P opts R world map s) refl (refl, refl, refl, refl, refl, refl, h, refl)

  with_map-Outcome :
      (picked : Option R.Map × P.maths.Engine) (phase : Option (CurriculumPhase P.maths))
      (s : Episodes P R)
      → s.simulator.have_last_episode_result ≡ false
      → Outcome s.progress (next_index s) (with_map P opts R picked phase s)
  unfolding Outcome
  with_map-Outcome (none, rng) phase s h = (refl, h)
  with_map-Outcome (some map, rng) phase s h =
      let drawn = R.draw rng in enter-Outcome _ map (record s { rng = drawn.1 }) h

  reset-Outcome :
      (s : Episodes P R)
      → Outcome (close_episode P opts R s).progress (next_index s) (reset P opts R s)
  unfolding reset
  reset-Outcome s =
      let closed = close_episode P opts R s in
      let phase = current_phase P.maths R.curriculum closed.progress in
      with_map-Outcome (pick_phase_map P opts R phase closed.rng) phase closed refl

  Outcome-recorded :
      (progress : Progress) (n : ℕ) (r : Option (ResetResult P) × Episodes P R)
      → Outcome progress n r
      → (r.1.progress ≡ progress) × (r.1.simulator.have_last_episode_result ≡ false)
  unfolding Outcome
  Outcome-recorded progress n (none, t) o = o
  Outcome-recorded progress n (some result, t) o = o.0

  -- Whether reset returns a result or an error: the curriculum has taken the outcome of the last
  -- episode exactly if one was left by a step that ended it, and none is left, so that no outcome is
  -- recorded twice when a failed reset is tried again.
  pub reset_records_once :
      (s : Episodes P R)
      → ((reset P opts R s).1.progress ≡ (
          if s.simulator.have_last_episode_result
          then end_episode P.maths R.curriculum s.simulator.last_episode_success s.progress
          else s.progress))
        × ((reset P opts R s).1.simulator.have_last_episode_result ≡ false)
  reset_records_once s = Outcome-recorded _ _ (reset P opts R s) (reset-Outcome s)

  -- A reset that returns a result has started a new episode: its number is that of the last one plus
  -- one, or unchanged at the first reset, it is also that of the result, and time, steps, rewards,
  -- return, dwell time, the end of the episode and its outcome are those of an episode before its
  -- first step.
  pub reset-IsFresh :
      (s t : Episodes P R) (result : ResetResult P)
      → reset P opts R s ≡ (some result, t)
      → (result.episode_index ≡ next_index s)
        × ((t.initialized ≡ true) × IsFresh P (next_index s) t.simulator)
  unfolding Outcome
  reset-IsFresh s t result e =
      (subst (λ r. Outcome (close_episode P opts R s).progress (next_index s) r) e
        (reset-Outcome s)).1
