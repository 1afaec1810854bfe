-- ===== src/Sim/Simulator/Step.antt =====
-- `step` of `Simulator::Impl` of libs/sim/src/simulator.cpp. An error is `none`; logging and the
-- measuring of time are left out.
pub mod Count
pub mod Limits
pub mod Returns
use ddrl_nav2d.Prelude.{
  ℕ, ◌+◌, ◌%◌, ◌^◌, Bool, true, false, ◌&&◌, ◌||◌, if◌then◌else◌, [], Option, none, some, ltb, leb,
}
use ddrl_nav2d.Sim.Simulator.{Parts, Options, Simulator, integrate_until}

module _ (P : Parts) where
  -- `Simulator::StepResult` with its `rl_metadata`
  pub record SimStepResult : Type 0 where
    pub observation : P.Observation
    pub sim_time : P.Real
    pub episode_done : Bool
    pub time_limit_reached : Bool
    pub reward_terms : P.Terms
    pub episode_index : ℕ
    pub episode_step_count : ℕ
    pub step_reward : P.Real
    pub episode_return : P.Real
    pub goal_reached : Bool

module _ (P : Parts) (opts : Options P) where
  open P use {Real, lt, le, add, sub}

  abbrev after_apply : Bool × P.World → Simulator P → Bool × Simulator P
  after_apply (ok, world) s = (ok, record s { world = some world })

  abbrev pub apply_action_if_requested :
      Option P.Action → P.World → Simulator P → Bool × Simulator P
  apply_action_if_requested none world s = (true, s)
  apply_action_if_requested (some action) world s =
      after_apply
        (P.apply_action
          (if le (P.timestamp action) P.zero then P.set_timestamp s.sim_time_s action else action)
          world)
        s

  abbrev pub clear_step : Simulator P → Simulator P
  clear_step s = record s {
    step_collision_severity = P.no_severity;
    step_collision_contacts = [];
    step_waypoint_reached = false;
    step_goal_reached = false;
  }

  abbrev pub next_count : ℕ → ℕ
  next_count n = (n + 1) % 2 ^ 64

  abbrev pub step_limit_reached : Simulator P → Bool
  step_limit_reached s =
      ltb 0 opts.max_decision_steps && leb opts.max_decision_steps (next_count s.episode_step_count)

  abbrev pub time_limit_reached : Real → Bool
  time_limit_reached target_time =
      lt P.zero opts.max_sim_seconds && le (sub opts.max_sim_seconds P.eps) target_time

  abbrev pub check_limits : Real → Simulator P → Simulator P
  check_limits target_time s = record s {
    episode_terminal =
        s.episode_terminal || (step_limit_reached s || time_limit_reached target_time);
  }

  abbrev pub finish :
      Real → Option P.Observation × P.World → Simulator P → Option (SimStepResult P) × Simulator P
  finish target_time (none, world) s = (none, record s { world = some world })
  finish target_time (some obs, world) s =
      let total = add s.episode_return (P.reward_of obs) in
      let done = P.is_terminal obs in
      (
        some (record {
          observation = obs;
          sim_time = target_time;
          episode_done = done;
          time_limit_reached = time_limit_reached target_time;
          reward_terms = s.accumulated_reward_terms;
          episode_index = s.episode_index;
          episode_step_count = next_count s.episode_step_count;
          step_reward = P.reward_of obs;
          episode_return = total;
          goal_reached = s.step_goal_reached;
        }),
        record s {
          world = some world;
          episode_terminal = done;
          accumulated_reward = P.zero;
          accumulated_reward_terms = P.no_terms;
          episode_return = total;
          episode_step_count = next_count s.episode_step_count;
          last_episode_success = if done then s.step_goal_reached else s.last_episode_success;
          have_last_episode_result = s.have_last_episode_result || done;
        },
      )

  abbrev pub tick_at : Option P.World → Real → Simulator P → Option (SimStepResult P) × Simulator P
  tick_at none target_time s = (none, s)
  tick_at (some world) target_time s =
      finish target_time
        (P.on_decision_tick target_time opts.decision_dt s.accumulated_reward s.episode_terminal
          world)
        s

  abbrev pub tick : Real → Bool × Simulator P → Option (SimStepResult P) × Simulator P
  tick target_time (false, s) = (none, s)
  tick target_time (true, s) = tick_at s.world target_time (check_limits target_time s)

  abbrev pub integrate_and_tick : ℕ → Bool × Simulator P → Option (SimStepResult P) × Simulator P
  integrate_and_tick passes (false, s) = (none, s)
  integrate_and_tick passes (true, s) =
      let target_time = add s.sim_time_s opts.decision_dt in
      tick target_time (integrate_until P opts passes target_time (clear_step s))

  abbrev pub step_in :
      Option P.World → ℕ → Option P.Action → Simulator P → Option (SimStepResult P) × Simulator P
  step_in none passes action s = (none, s)
  step_in (some world) passes action s =
      integrate_and_tick passes (apply_action_if_requested action world s)

  unfoldable pub step : ℕ → Option P.Action → Simulator P → Option (SimStepResult P) × Simulator P
  step passes action s = step_in s.world passes action s
