-- ===== src/Sim/Simulator.antt =====
-- `integrate_until` of `Simulator::Impl` of libs/sim/src/simulator.cpp. The world, the
-- reward function and the event bus are fields of `Parts`, a result of theirs that is an error is
-- `false` or `none`; `passes` is the fuel of the loop over physics steps. Timing is only logged.
pub mod Loop
pub mod Step
pub mod Reset
mod Tests
use ddrl_nav2d.Prelude.{
  ℕ, zero, suc, ◌+◌, ◌%◌, ◌^◌, Bool, true, false, not, ◌&&◌, ◌||◌, if◌then◌else◌, List, [], ◌∷◌,
  Option, none, some, ltb, leb,
}
use ddrl_nav2d.Collision.Bounds.{std_min}
use ddrl_nav2d.Sim.Maths.{Maths}
use ddrl_nav2d.Sim.Spawn.{increment}
use ddrl_nav2d.Sim.Spawn.Queue.{is_empty}

-- `CollisionSeverity::Level`
pub data Level : Type 0 where
  no_collision : Level
  minor : Level
  moderate : Level
  severe : Level
  critical : Level

abbrev pub severity_rank : Level → ℕ
severity_rank Level.no_collision = 0
severity_rank Level.minor = 1
severity_rank Level.moderate = 2
severity_rank Level.severe = 3
severity_rank Level.critical = 4

pub record Parts : Type 1 where
  pub maths : Maths
  pub open maths use *
  pub World : Type 0
  pub Action : Type 0
  pub Observation : Type 0
  pub Contact : Type 0
  pub Severity : Type 0
  pub Telemetry : Type 0
  pub Snapshot : Type 0
  pub Terms : Type 0
  pub Reward : Type 0
  pub Bus : Type 0
  pub eps : Real
  pub no_severity : Severity
  pub level : Severity → Level
  pub update : Real → World → Bool × World
  pub consume_collision_report : World → Option (Severity × List Contact) × World
  pub reward_telemetry : World → Telemetry × World
  pub waypoint_reached : Telemetry → Bool
  pub final_goal_reached : Telemetry → Bool
  pub timestamp : Action → Real
  pub set_timestamp : Real → Action → Action
  pub apply_action : Action → World → Bool × World
  pub on_decision_tick : Real → Real → Real → Bool → World → Option Observation × World
  pub is_terminal : Observation → Bool
  pub reward_of : Observation → Real
  pub compute : Telemetry → ℕ → Bool → Real → Severity → Bool → Reward → (Real × Terms) × Reward
  pub should_terminate : Reward → Bool
  pub no_terms : Terms
  pub add_terms : Terms → Terms → Terms
  pub has_bus : Bus → Bool
  pub capture_snapshot : World → Option Snapshot × World
  pub publish : Real → Snapshot → Bus → Bool × Bus

module _ (P : Parts) where
  -- What is read of the configurations.
  pub record Options : Type 0 where
    pub fixed_dt : P.Real
    pub decision_dt : P.Real
    pub max_decision_steps : ℕ
    pub max_sim_seconds : P.Real
    pub collision_timeout_s : P.Real
    pub terminate_on_goal : Bool
    pub visualization_enabled : Bool
    pub viz_publish_period : P.Real

  pub record Simulator : Type 0 where
    pub world : Option P.World
    pub reward_fn : Option P.Reward
    pub bus : P.Bus
    pub sim_time_s : P.Real
    pub next_viz_publish_time : P.Real
    pub accumulated_reward : P.Real
    pub accumulated_reward_terms : P.Terms
    pub episode_terminal : Bool
    pub collision_dwell_time : P.Real
    pub episode_return : P.Real
    pub episode_step_count : ℕ
    pub episode_index : ℕ
    pub last_episode_success : Bool
    pub have_last_episode_result : Bool
    pub step_collision_severity : P.Severity
    pub step_collision_contacts : List P.Contact
    pub step_waypoint_reached : Bool
    pub step_goal_reached : Bool

module _ (P : Parts) (opts : Options P) where
  open P use {Real, lt, le, add, sub}

  abbrev is_active_severity : P.Severity → Bool
  is_active_severity severity = ltb 0 (severity_rank (P.level severity))

  -- What a pass makes of the collision report.
  unfoldable pub track_collision :
      Real → Option (P.Severity × List P.Contact) → Simulator P → Simulator P
  track_collision dt none s = record s { collision_dwell_time = P.zero }
  track_collision dt (some (severity, contacts)) s =
      let worse =
        is_empty s.step_collision_contacts
        || ltb (severity_rank (P.level s.step_collision_severity))
            (severity_rank (P.level severity)) in
      let dwell = if is_active_severity severity then add s.collision_dwell_time dt else P.zero in
      let timed_out =
        is_active_severity severity
        && (lt P.zero opts.collision_timeout_s && le opts.collision_timeout_s dwell) in
      record s {
        step_collision_severity = if worse then severity else s.step_collision_severity;
        step_collision_contacts = contacts;
        collision_dwell_time = dwell;
        episode_terminal =
            (s.episode_terminal || leb 3 (severity_rank (P.level severity))) || timed_out;
      }

  -- The reward of a pass, and the ends of the episode that it finds.
  unfoldable pub take_reward : Real → P.World → Option P.Reward → Simulator P → Simulator P
  take_reward dt world none s = s
  take_reward dt world (some reward) s =
      let over =
        lt P.zero opts.max_sim_seconds
        && le (sub opts.max_sim_seconds P.eps) (add s.sim_time_s dt) in
      let telemetry = P.reward_telemetry world in
      let goal = P.final_goal_reached telemetry.0 in
      let computed =
        P.compute telemetry.0 (s.episode_step_count % 2 ^ 32) over dt s.step_collision_severity
          (is_active_severity s.step_collision_severity) reward in
      record s {
        world = some telemetry.1;
        reward_fn = some computed.1;
        step_waypoint_reached = s.step_waypoint_reached || P.waypoint_reached telemetry.0;
        step_goal_reached = s.step_goal_reached || goal;
        accumulated_reward = add s.accumulated_reward computed.0.0;
        accumulated_reward_terms = P.add_terms s.accumulated_reward_terms computed.0.1;
        episode_terminal =
            (s.episode_terminal || (goal && opts.terminate_on_goal))
            || P.should_terminate computed.1;
      }

  abbrev after_publish : Real → Bool × P.Bus → Simulator P → Bool × Simulator P
  after_publish current_time (false, bus) s = (false, record s { bus = bus })
  after_publish current_time (true, bus) s = (
    true,
    record s { bus = bus; next_viz_publish_time = add current_time opts.viz_publish_period },
  )

  abbrev pub publish_snapshot :
      Real → Option P.Snapshot × P.World → Simulator P → Bool × Simulator P
  publish_snapshot current_time (none, world) s = (true, record s { world = some world })
  publish_snapshot current_time (some snapshot, world) s =
      after_publish current_time (P.publish current_time snapshot s.bus)
        (record s { world = some world })

  abbrev pub publish_from : Option P.World → Real → Bool → Simulator P → Bool × Simulator P
  publish_from none current_time force_publish s = (true, s)
  publish_from (some world) current_time force_publish s =
      if not force_publish && lt (add current_time P.eps) s.next_viz_publish_time
      then (true, s)
      else publish_snapshot current_time (P.capture_snapshot world) s

  unfoldable pub publish_world_snapshot : Real → Bool → Simulator P → Bool × Simulator P
  publish_world_snapshot current_time force_publish s =
      if not opts.visualization_enabled || not (P.has_bus s.bus)
      then (true, s)
      else publish_from s.world current_time force_publish s

  -- A pass of the loop, from the world's update on.
  abbrev pub after_update : Real → Bool × P.World → Simulator P → Bool × Simulator P
  after_update dt (false, world) s = (false, record s { world = some world })
  after_update dt (true, world) s =
      let report = P.consume_collision_report world in
      let moved : Simulator P = record s {
        world = some report.1;
        sim_time_s = add s.sim_time_s dt;
      } in
      let tracked = track_collision dt report.0 moved in
      let rewarded = take_reward dt report.1 tracked.reward_fn tracked in
      publish_world_snapshot rewarded.sim_time_s false rewarded

  abbrev pub pass_at : Option P.World → Real → Simulator P → Bool × Simulator P
  pass_at none dt s = (false, s)
  pass_at (some world) dt s = after_update dt (P.update dt world) s

  abbrev pub pass : Real → Simulator P → Bool × Simulator P
  pass target_time s =
      pass_at s.world (std_min P.double opts.fixed_dt (sub target_time s.sim_time_s)) s

  abbrev pub continue : Bool × Simulator P → (Simulator P → Bool × Simulator P) → Bool × Simulator P
  continue (false, s) more = (false, s)
  continue (true, s) more = more s

  abbrev pub unless_there :
      Bool → Simulator P → (Simulator P → Bool × Simulator P) → Bool × Simulator P
  unless_there true s more = more s
  unless_there false s more = (true, s)

  -- A loop whose passes run out before its test fails is no success.
  unfoldable pub integrate_loop : ℕ → Real → Simulator P → Bool × Simulator P
  integrate_loop zero target_time s = (not (lt (add s.sim_time_s P.eps) target_time), s)
  integrate_loop (suc n) target_time s =
      unless_there (lt (add s.sim_time_s P.eps) target_time) s
        (λ t. continue (pass target_time t) (λ u. integrate_loop n target_time u))

  unfoldable pub integrate_until : ℕ → Real → Simulator P → Bool × Simulator P
  integrate_until passes target_time s =
      if le opts.fixed_dt P.zero then (false, s) else integrate_loop passes target_time s
