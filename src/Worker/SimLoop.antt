-- ===== src/Worker/SimLoop.antt =====
-- `Worker::sim_thread_main`, `Worker::handle_rollout_ready` and `Worker::reset_policy_context` of
-- apps/worker/src/worker.cpp: one simulator thread. The simulator, the policy, the observation
-- encoder, the clock and the version of the current model are the fields of `Env`; each may depend
-- on the simulator's state, which stands for all that has happened. Visualisation, pacing and
-- logging change no state of this component and are left out.
-- `poll` is what the thread does after `stoken.stop_requested()` has answered false once.
pub mod Fragment
pub mod Invariant
pub mod Flush
pub mod Preserve
pub mod Delivery
pub mod Run
use ddrl_nav2d.Prelude.{
  ℕ, ◌+◌, ◌%◌, ◌^◌, Bool, true, false, not, ◌&&◌, ◌||◌, Option, none, some, List, [], ◌∷◌, ◌++◌,
  length, if◌then◌else◌, ltb, ◌==◌,
}
use ddrl_nav2d.Worker.Trajectory.{
  Payload, RecurrentStateSnapshot, TrajectoryStep, TrajectoryBuffer, push_step, set_pending_step,
  complete_pending_step, is_full, empty, extract, set_initial_recurrent_state,
  extract_initial_recurrent_state, clear, new_buffer,
}

-- The bit pattern of `static_cast<int32_t>`.
abbrev pub to_int32 : ℕ → ℕ
to_int32 n = n % 2 ^ 32

abbrev pub replicate {ℓ} : {A : Type ℓ} → ℕ → A → List A
replicate ℕ.zero a = []
replicate (ℕ.suc n) a = a ∷ replicate n a

abbrev pub is_nil {ℓ} : {A : Type ℓ} → List A → Bool
is_nil [] = true
is_nil (x ∷ xs) = false

-- `PolicyModel::PolicyContext`
pub record PolicyContext (P : Payload) : Type 0 where
  pub hidden_state : List P.Float
  pub cell_state : List P.Float
  pub policy_version : ℕ

-- `Simulator::StepResult`, as far as the thread reads it.
pub record StepResult (P : Payload) : Type 0 where
  pub observation : P.Observation
  pub reward_terms : P.RewardTerms
  pub episode_return : P.Double

-- `Worker::PolicyEval`
pub record PolicyEval (P : Payload) : Type 0 where
  pub action : P.Action
  pub log_prob : P.Double

pub record Rollout (P : Payload) : Type 0 where
  pub sim_id : ℕ
  pub rollout_id : ℕ
  pub policy_version : ℕ
  pub is_expert : Bool
  pub episode_return : P.Double
  pub is_terminal : Bool
  pub timestamp : ℕ
  pub steps : List (TrajectoryStep P)
  pub initial_recurrent_state : Option (RecurrentStateSnapshot P)

pub record Env : Type 1 where
  pub payload : Payload
  pub Sim : Type 0
  pub reset : Sim → Sim × Option (payload.Observation)
  pub advance : Sim → payload.Action → Sim × Option (StepResult payload)
  pub reward_of : payload.Observation → payload.Double
  pub is_terminal_of : payload.Observation → Bool
  pub encode : payload.Observation → List payload.Float
  pub generate_action :
      PolicyContext payload
      → Sim
      → payload.Observation
      → List payload.Float
      → PolicyContext payload × PolicyEval payload
  pub now : Sim → ℕ
  pub current_policy_version : Sim → ℕ
  pub float_zero : payload.Float
  pub moved : TrajectoryStep payload → TrajectoryStep payload

-- What the thread reads of the configuration.
pub record Config : Type 0 where
  pub sim_id : ℕ
  pub instance_count : ℕ
  pub has_publisher : Bool
  pub neural_policy : Bool
  pub expert_policy : Bool
  pub lstm_model : Bool
  pub lstm_hidden_dim : ℕ

module _ (E : Env) where
  open E use {payload, Sim}

  -- What the next poll has to handle: the result of `simulator.reset`, or an action to perform.
  pub data Phase : Type 0 where
    reseeding : Option payload.Observation → Phase
    running : PolicyEval payload → Phase
    stopped : Phase
    crashed : Phase

module _ (E : Env) where
  open E use {payload, Sim}

  -- The state of one `SimInstance`; `emitted` lists the arguments of `RolloutPublisher::enqueue`.
  pub record Instance : Type 0 where
    pub sim : Sim
    pub trajectory : TrajectoryBuffer payload
    pub policy : PolicyContext payload
    pub rollout_sequence : ℕ
    pub phase : Phase E
    pub emitted : List (Rollout payload)

module _ (E : Env) (cfg : Config) where
  open E use {payload, Sim, reset, advance, reward_of, is_terminal_of, encode, generate_action}

  unfoldable pub snapshot_of : PolicyContext payload → Option (RecurrentStateSnapshot payload)
  snapshot_of ctx =
      if not (is_nil ctx.hidden_state) && (length ctx.hidden_state == length ctx.cell_state)
      then some (record {
        hidden = ctx.hidden_state;
        cell = ctx.cell_state;
        shape = 1 ∷ to_int32 (length ctx.hidden_state) ∷ [];
      })
      else if cfg.lstm_model && ltb 0 cfg.lstm_hidden_dim
      then some (record {
        hidden = replicate cfg.lstm_hidden_dim E.float_zero;
        cell = replicate cfg.lstm_hidden_dim E.float_zero;
        shape = 1 ∷ to_int32 cfg.lstm_hidden_dim ∷ [];
      })
      else none

  -- `snapshot_recurrent_state_if_fragment_start`
  unfoldable pub snapshot_if_fragment_start :
      PolicyContext payload → TrajectoryBuffer payload → TrajectoryBuffer payload
  unfolding empty set_initial_recurrent_state
  snapshot_if_fragment_start ctx b =
      if not cfg.neural_policy || not (empty payload b) || b.has_pending
      then b
      else elim (snapshot_of ctx) [ none ↦ b | some s ↦ set_initial_recurrent_state payload b s ]

  unfoldable pub reset_policy_context : Instance E → ℕ → Instance E
  reset_policy_context i version = record i {
    policy = record { hidden_state = []; cell_state = []; policy_version = version };
  }

  unfoldable pub reset_context_if_neural : Instance E → Instance E
  unfolding reset_policy_context
  reset_context_if_neural i =
      if cfg.neural_policy then reset_policy_context i (E.current_policy_version i.sim) else i

  abbrev pub rollout_of :
      Instance E → List (TrajectoryStep payload) → payload.Double → Bool → Rollout payload
  rollout_of i steps episode_return terminal = record {
    sim_id = cfg.sim_id;
    rollout_id = i.rollout_sequence;
    policy_version = E.current_policy_version i.sim;
    is_expert = cfg.expert_policy;
    episode_return = episode_return;
    is_terminal = terminal;
    timestamp = E.now i.sim;
    steps = steps;
    initial_recurrent_state = i.trajectory.initial_recurrent_state;
  }

  -- The rollout is emitted whether or not `enqueue` then accepts it.
  unfoldable pub handle_rollout_ready :
      Instance E → List (TrajectoryStep payload) → payload.Double → Bool → Instance E
  unfolding extract_initial_recurrent_state
  handle_rollout_ready i steps episode_return terminal =
      if not cfg.has_publisher
      then i
      else if not (ltb cfg.sim_id cfg.instance_count)
      then i
      else if is_nil steps
      then i
      else record i {
        trajectory = (extract_initial_recurrent_state payload i.trajectory).1;
        rollout_sequence = (i.rollout_sequence + 1) % 2 ^ 64;
        emitted = i.emitted ++ (rollout_of i steps episode_return terminal ∷ []);
      }

  -- Choose the next action for an observation, and leave (S_t, A_t) pending.
  unfoldable pub decide : Instance E → payload.Observation → Instance E
  unfolding snapshot_if_fragment_start set_pending_step
  decide i obs =
      let b = snapshot_if_fragment_start i.policy i.trajectory in
      let features = encode obs in
      let (ctx, eval) = generate_action i.policy i.sim obs features in
      record i {
        trajectory = set_pending_step payload b obs features eval.action eval.log_prob;
        policy = ctx;
        phase = Phase.running eval;
      }

  unfoldable pub reset_simulator : Instance E → Instance E
  reset_simulator i =
      let (sim, result) = reset i.sim in record i { sim = sim; phase = Phase.reseeding result }

  -- One pass of the loop of `reseed_until_ready`; a failed reset ends the thread.
  unfoldable pub reseed : Instance E → Option payload.Observation → Instance E
  unfolding decide reset_simulator
  reseed i none = record i { phase = Phase.stopped }
  reseed i (some obs) = if is_terminal_of obs then reset_simulator i else decide i obs

  -- "Check if rollouts should be published"
  unfoldable pub flush : Instance E → payload.Double → Bool → Instance E
  unfolding is_full empty extract handle_rollout_ready
  flush i episode_return terminal =
      if (is_full payload i.trajectory || terminal) && not (empty payload i.trajectory)
      then handle_rollout_ready (record i { trajectory = (extract payload i.trajectory).1 })
          (extract payload i.trajectory).0 episode_return terminal
      else i

  -- Drop what is buffered and start an episode: at the start, and after an episode's last step.
  unfoldable pub end_episode : Instance E → Instance E
  unfolding clear reset_context_if_neural reset_simulator
  end_episode i =
      reset_simulator
        (reset_context_if_neural (record i { trajectory = clear payload i.trajectory }))

  -- `none` is the `std::logic_error` of `complete_pending_step`, which nothing catches.
  unfoldable pub record_step :
      Instance E
      → StepResult payload
      → Option (TrajectoryStep payload × TrajectoryBuffer payload)
      → Instance E
  unfolding push_step flush end_episode decide
  record_step i r none = record i { phase = Phase.crashed }
  record_step i r (some (step, b)) =
      let terminal = is_terminal_of r.observation in
      let i' =
        flush (record i { trajectory = push_step payload b step }) r.episode_return terminal in
      if terminal then end_episode i' else decide i' r.observation

  unfoldable pub handle_step : Instance E → Option (StepResult payload) → Instance E
  unfolding record_step complete_pending_step
  handle_step i none = record i { phase = Phase.stopped }
  handle_step i (some r) = record_step i r (
      complete_pending_step payload E.moved i.trajectory (reward_of r.observation)
        (is_terminal_of r.observation) r.reward_terms)

  unfoldable pub poll_at : Instance E → Phase E → Instance E
  unfolding reseed handle_step
  poll_at i (Phase.reseeding result) = reseed i result
  poll_at i (Phase.running eval) =
      let (sim, result) = advance i.sim eval.action in handle_step (record i { sim = sim }) result
  poll_at i Phase.stopped = i
  poll_at i Phase.crashed = i

  unfoldable pub poll : Instance E → Instance E
  poll i = poll_at i i.phase

  -- An instance before its thread starts.
  abbrev pub new_instance : ℕ → Sim → Instance E
  new_instance unroll sim = record {
    sim = sim;
    trajectory = new_buffer payload unroll;
    policy = record { hidden_state = []; cell_state = []; policy_version = 0 };
    rollout_sequence = 0;
    phase = Phase.stopped;
    emitted = [];
  }

  -- The thread up to its first poll: an index out of range ends it at once.
  unfoldable pub boot : Instance E → Instance E
  unfolding end_episode
  boot i =
      if not (ltb cfg.sim_id cfg.instance_count)
      then record i { phase = Phase.stopped }
      else end_episode i

  -- The thread after `n` polls.
  unfoldable pub polls : ℕ → Instance E → Instance E
  polls ℕ.zero i = i
  polls (ℕ.suc n) i = polls n (poll i)
