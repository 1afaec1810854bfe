-- ===== src/Sim/Simulator/Reset.antt =====
-- `reset` of `Simulator::Impl` of libs/sim/src/simulator.cpp, with `pick_phase_map` and `mix_seed`.
-- An error is `none`. The map manager is there, as the worker always passes one; its lookup, the
-- constructor of the world and the random numbers are fields of `Resources`.
pub mod Fresh
mod Tests
use Prim.Native.Nat.{bit_xor}
use ddrl_nav2d.Prelude.{
  ℕ, ◌+◌, ◌*◌, ◌/◌, ◌%◌, ◌^◌, Bool, true, false, List, [], ◌∷◌, Option, none, some, length,
  get_elem?, if◌then◌else◌,
}
use ddrl_nav2d.Sim.Spawn.{Settings, increment}
use ddrl_nav2d.Sim.Curriculum.{
  CurriculumPhase, Curriculum, Progress, Sensor, current_phase, end_episode, build_spawn_config,
}
use ddrl_nav2d.Sim.Simulator.{Parts, Options, Simulator, publish_world_snapshot}
use ddrl_nav2d.Sim.Simulator.Step.{SimStepResult}

abbrev pub xor_shift : ℕ → ℕ → ℕ
xor_shift k x = bit_xor x (x / 2 ^ k)

-- On `uint64_t`.
unfoldable pub mix_seed : ℕ → ℕ → ℕ
mix_seed base salt =
    let x = (base + 0x9e3779b97f4a7c15 + salt * 2 ^ 6 % 2 ^ 64 + salt / 2 ^ 2) % 2 ^ 64 in
    let y = xor_shift 30 x * 0xbf58476d1ce4e5b9 % 2 ^ 64 in
    let z = xor_shift 27 y * 0x94d049bb133111eb % 2 ^ 64 in xor_shift 31 z

pub record Resources (P : Parts) : Type 1 where
  pub Map : Type 0
  pub curriculum : Curriculum P.maths
  pub spawn_manager : Settings P.maths
  -- The sensors of the robot's profile, if the profile is found.
  pub sensors : Option (List (Sensor P.maths))
  pub get_map_by_name : ℕ → Option Map
  -- `std::uniform_int_distribution` from zero to a bound, and a draw of the engine.
  pub uniform_int : ℕ → P.maths.Engine → ℕ × P.maths.Engine
  pub draw : P.maths.Engine → ℕ × P.maths.Engine
  -- `none` is an exception of the constructor.
  pub make_world : Map → Settings P.maths → ℕ → Option P.World
  pub build_initial_observation : P.Real → P.World → Option P.Observation × P.World
  pub reset_reward : P.Reward → P.Reward

module _ (P : Parts) where
  -- `Simulator::ResetResult`
  pub record ResetResult : Type 0 where
    pub initial_observation : SimStepResult P
    pub episode_index : ℕ

  -- The members of `Simulator::Impl` that `reset` needs beside those of `step`.
  pub record Episodes (R : Resources P) : Type 0 where
    pub simulator : Simulator P
    pub progress : Progress
    pub rng : P.maths.Engine
    pub initialized : Bool
    pub current_map : Option R.Map

module _ (P : Parts) (opts : Options P) (R : Resources P) where
  abbrev pub pick_map : List ℕ → P.maths.Engine → Option R.Map × P.maths.Engine
  pick_map [] rng = (none, rng)
  pick_map (m ∷ ms) rng =
      let drawn = R.uniform_int (length ms) rng in
      (
        elim (get_elem? (m ∷ ms) drawn.0) [ none ↦ none | some name ↦ R.get_map_by_name name ],
        drawn.1,
      )

  abbrev pub pick_phase_map :
      Option (CurriculumPhase P.maths) → P.maths.Engine → Option R.Map × P.maths.Engine
  pick_phase_map none rng = (none, rng)
  pick_phase_map (some phase) rng = pick_map phase.maps rng

  -- The first lines, on the outcome of the last episode.
  abbrev pub close_episode : Episodes P R → Episodes P R
  close_episode s = record s {
    progress =
        if s.simulator.have_last_episode_result
        then end_episode P.maths R.curriculum s.simulator.last_episode_success s.progress
        else s.progress;
    simulator = record s.simulator { have_last_episode_result = false };
  }

  abbrev pub reset_reward_fn : Option P.Reward → Option P.Reward
  reset_reward_fn none = none
  reset_reward_fn (some reward) = some (R.reset_reward reward)

  -- The assignments after the world was made, with `reset_episode_counters`.
  abbrev pub fresh : P.World → R.Map → Episodes P R → Episodes P R
  fresh world map s = record s {
    current_map = some map;
    initialized = true;
    simulator = record s.simulator {
      world = some world;
      sim_time_s = P.zero;
      next_viz_publish_time = P.zero;
      accumulated_reward = P.zero;
      accumulated_reward_terms = P.no_terms;
      episode_terminal = false;
      step_collision_severity = P.no_severity;
      step_collision_contacts = [];
      step_waypoint_reached = false;
      step_goal_reached = false;
      collision_dwell_time = P.zero;
      reward_fn = reset_reward_fn s.simulator.reward_fn;
      episode_index =
          if s.initialized then increment s.simulator.episode_index else s.simulator.episode_index;
      episode_return = P.zero;
      episode_step_count = 0;
    };
  }

  abbrev pub result_of : P.Observation → Simulator P → ResetResult P
  result_of obs s = record {
    initial_observation = record {
      observation = obs;
      sim_time = s.sim_time_s;
      episode_done = P.is_terminal obs;
      time_limit_reached = false;
      reward_terms = P.no_terms;
      episode_index = s.episode_index;
      episode_step_count = s.episode_step_count;
      step_reward = P.zero;
      episode_return = s.episode_return;
      goal_reached = false;
    };
    episode_index = s.episode_index;
  }

  abbrev pub published_reset :
      P.Observation → Bool × Simulator P → Episodes P R → Option (ResetResult P) × Episodes P R
  published_reset obs (false, sim) s = (none, record s { simulator = sim })
  published_reset obs (true, sim) s = (some (result_of obs sim), record s { simulator = sim })

  abbrev pub observed :
      Option P.Observation × P.World → Episodes P R → Option (ResetResult P) × Episodes P R
  observed (none, world) s =
      (none, record s { simulator = record s.simulator { world = some world } })
  observed (some obs, world) s =
      let sim : Simulator P = record s.simulator { world = some world } in
      published_reset obs (publish_world_snapshot P opts sim.sim_time_s true sim) s

  abbrev pub enter : Option P.World → R.Map → Episodes P R → Option (ResetResult P) × Episodes P R
  enter none map s = (none, s)
  enter (some world) map s = observed (R.build_initial_observation P.zero world) (fresh world map s)

  abbrev pub with_map :
      Option R.Map × P.maths.Engine
      → Option (CurriculumPhase P.maths)
      → Episodes P R
      → Option (ResetResult P) × Episodes P R
  with_map (none, rng) phase s = (none, record s { rng = rng })
  with_map (some map, rng) phase s =
      let drawn = R.draw rng in
      let seed = mix_seed drawn.0 (increment s.simulator.episode_index) in
      let settings = build_spawn_config P.maths R.spawn_manager R.sensors phase in
      enter (R.make_world map settings seed) map (record s { rng = drawn.1 })

  unfoldable pub reset : Episodes P R → Option (ResetResult P) × Episodes P R
  reset s =
      let closed = close_episode s in
      let phase = current_phase P.maths R.curriculum closed.progress in
      with_map (pick_phase_map phase closed.rng) phase closed
