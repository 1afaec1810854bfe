-- ===== src/Sim/Simulator/Reset/Tests.antt =====
-- Resets of a simulator with one map, for libs/sim/src/simulator.cpp.
use ddrl_nav2d.Prelude.{ℕ, suc, ◌≡◌, refl, true, false, none, some, ◌%◌}
use ddrl_nav2d.Sim.Tests.{maths, settings, curriculum}
use ddrl_nav2d.Sim.Curriculum.{
  no_progress, end_episode, record_episode_outcome, maybe_advance_curriculum,
}
use ddrl_nav2d.Sim.Simulator.{publish_world_snapshot}
use ddrl_nav2d.Sim.Simulator.Tests.{still_parts, still_options, after_first}
use ddrl_nav2d.Sim.Simulator.Reset.{Resources, ResetResult, Episodes, reset}
use ddrl_nav2d.Sim.Simulator.Reset.Fresh.{reset_records_once}

abbrev one_map : Resources still_parts
one_map = record {
  Map = ℕ;
  curriculum = curriculum;
  spawn_manager = settings;
  sensors = none;
  get_map_by_name = λ name. some name;
  uniform_int = λ bound rng. (0, suc rng);
  draw = λ rng. (rng % 2, suc rng);
  make_world = λ map cfg seed. some map;
  build_initial_observation = λ time world. (some false, world);
  reset_reward = λ reward. 0;
}

abbrev won : Episodes still_parts one_map
won = record {
  simulator = record after_first { last_episode_success = true; have_last_episode_result = true };
  progress = no_progress;
  rng = 5;
  initialized = true;
  current_map = none;
}

reset_records_once_example :
    ((reset still_parts still_options one_map won).1.progress
      ≡ end_episode maths curriculum true no_progress)
    × ((reset still_parts still_options one_map won).1.simulator.have_last_episode_result ≡ false)
reset_records_once_example = reset_records_once still_parts still_options one_map won

abbrev first_reset : ResetResult still_parts
first_reset = record {
  initial_observation = record {
    observation = false;
    sim_time = 0;
    episode_done = false;
    time_limit_reached = false;
    reward_terms = 0;
    episode_index = 1;
    episode_step_count = 0;
    step_reward = 0;
    episode_return = 0;
    goal_reached = false;
  };
  episode_index = 1;
}

reset_lem :
    (reset still_parts still_options one_map won)
    ≡ (some first_reset, (reset still_parts still_options one_map won).1)
unfolding reset publish_world_snapshot record_episode_outcome maybe_advance_curriculum
reset_lem = refl
