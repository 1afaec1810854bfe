-- ===== src/Sim/Simulator/Tests.antt =====
-- A simulator whose world has no obstacles and counts its updates, for libs/sim/src/simulator.cpp.
use ddrl_nav2d.Prelude.{ℕ, suc, Bool, ◌+◌, ◌-◌, ◌≡◌, refl, true, false, [], ◌∷◌, none, some, leb}
use ddrl_nav2d.Collision.Bounds.{std_min}
use ddrl_nav2d.Sim.Tests.{maths}
use ddrl_nav2d.Sim.Simulator.{
  Level, Parts, Options, Simulator, track_collision, take_reward, publish_world_snapshot,
  integrate_loop, integrate_until,
}
use ddrl_nav2d.Sim.Simulator.Step.{SimStepResult, step}

-- Each pass reports a minor contact and rewards two.
abbrev pub still_parts : Parts
still_parts = record {
  maths = maths;
  World = ℕ;
  Action = ℕ;
  Observation = Bool;
  Contact = ℕ;
  Severity = Level;
  Telemetry = ℕ;
  Snapshot = ℕ;
  Terms = ℕ;
  Reward = ℕ;
  Bus = ℕ;
  eps = 0;
  no_severity = Level.no_collision;
  level = λ severity. severity;
  update = λ dt world. (true, suc world);
  consume_collision_report = λ world. (some (Level.minor, 7 ∷ []), world);
  reward_telemetry = λ world. (world, world);
  waypoint_reached = λ telemetry. false;
  final_goal_reached = λ telemetry. leb 5 telemetry;
  timestamp = λ action. action;
  set_timestamp = λ time action. time;
  apply_action = λ action world. (true, world);
  on_decision_tick = λ time dt reward terminal world. (some terminal, world);
  is_terminal = λ observation. observation;
  reward_of = λ observation. 2;
  compute = λ telemetry steps over dt severity active reward. ((2, 1), suc reward);
  should_terminate = λ reward. false;
  no_terms = 0;
  add_terms = ◌+◌;
  has_bus = λ bus. true;
  capture_snapshot = λ world. (some world, world);
  publish = λ time snapshot bus. (true, suc bus);
}

abbrev pub still_options : Options still_parts
still_options = record {
  fixed_dt = 1;
  decision_dt = 3;
  max_decision_steps = 4;
  max_sim_seconds = 9;
  collision_timeout_s = 0;
  terminate_on_goal = true;
  visualization_enabled = true;
  viz_publish_period = 2;
}

abbrev still_simulator : Simulator still_parts
still_simulator = record {
  world = some 0;
  reward_fn = some 0;
  bus = 0;
  sim_time_s = 0;
  next_viz_publish_time = 0;
  accumulated_reward = 0;
  accumulated_reward_terms = 0;
  episode_terminal = false;
  collision_dwell_time = 0;
  episode_return = 0;
  episode_step_count = 0;
  episode_index = 0;
  last_episode_success = false;
  have_last_episode_result = false;
  step_collision_severity = Level.no_collision;
  step_collision_contacts = [];
  step_waypoint_reached = false;
  step_goal_reached = false;
}

abbrev units_left : ℕ → ℕ → ℕ
units_left target_time time = target_time - time

three_passes :
    (integrate_until still_parts still_options 3 3 still_simulator).1.accumulated_reward ≡ 6
unfolding integrate_until integrate_loop track_collision take_reward publish_world_snapshot std_min
three_passes = refl

three_passes-ok : (integrate_until still_parts still_options 3 3 still_simulator).0 ≡ true
unfolding integrate_until integrate_loop track_collision take_reward publish_world_snapshot std_min
three_passes-ok = refl

abbrev first_result : SimStepResult still_parts
first_result = record {
  observation = false;
  sim_time = 3;
  episode_done = false;
  time_limit_reached = false;
  reward_terms = 3;
  episode_index = 0;
  episode_step_count = 1;
  step_reward = 2;
  episode_return = 2;
  goal_reached = false;
}

abbrev pub after_first : Simulator still_parts
after_first = record {
  world = some 3;
  reward_fn = some 3;
  bus = 2;
  sim_time_s = 3;
  next_viz_publish_time = 5;
  accumulated_reward = 0;
  accumulated_reward_terms = 0;
  episode_terminal = false;
  collision_dwell_time = 3;
  episode_return = 2;
  episode_step_count = 1;
  episode_index = 0;
  last_episode_success = false;
  have_last_episode_result = false;
  step_collision_severity = Level.minor;
  step_collision_contacts = 7 ∷ [];
  step_waypoint_reached = false;
  step_goal_reached = false;
}

first_step :
    step still_parts still_options 3 none still_simulator ≡ (some first_result, after_first)
unfolding step integrate_until integrate_loop track_collision take_reward publish_world_snapshot
    std_min
first_step = refl
