-- ===== src/Worker/Trajectory.antt =====
-- apps/worker/include/worker/trajectory_buffer.hpp and apps/worker/src/trajectory_buffer.cpp.
-- Observations, actions, reward terms and floating-point numbers are only moved by this code:
-- their types, and the values of their default constructors, are the fields of `Payload`.
pub mod Spec
pub mod Refine
use ddrl_nav2d.Prelude.{ℕ, Bool, true, false, Option, none, some, List, [], ◌∷◌, ◌++◌, length, leb}

pub record Payload : Type 1 where
  pub Observation : Type 0
  pub Action : Type 0
  pub RewardTerms : Type 0
  pub Float : Type 0
  pub Double : Type 0
  pub no_observation : Observation
  pub no_action : Action
  pub no_terms : RewardTerms
  pub nought : Double

pub record RecurrentStateSnapshot (P : Payload) : Type 0 where
  pub hidden : List P.Float
  pub cell : List P.Float
  pub shape : List ℕ

pub record TrajectoryStep (P : Payload) : Type 0 where
  pub state : P.Observation
  pub encoded_observation_features : List P.Float
  pub action : P.Action
  pub reward_terms : P.RewardTerms
  pub reward : P.Double
  pub is_terminal : Bool
  pub behaviour_log_prob : P.Double

pub record TrajectoryBuffer (P : Payload) : Type 0 where
  pub unroll_length : ℕ
  pub buffer : List (TrajectoryStep P)
  pub pending_step : TrajectoryStep P
  pub has_pending : Bool
  pub initial_recurrent_state : Option (RecurrentStateSnapshot P)

module _ (P : Payload) where
  open P use {Observation, Action, RewardTerms, Float, Double}

  -- `TrajectoryStep() = default`
  abbrev pub blank_step : TrajectoryStep P
  blank_step = record {
    state = P.no_observation;
    encoded_observation_features = [];
    action = P.no_action;
    reward_terms = P.no_terms;
    reward = P.nought;
    is_terminal = false;
    behaviour_log_prob = P.nought;
  }

  -- The constructor from (S_t, features, A_t, log_prob): the other members keep their initialisers.
  abbrev pub make_step : Observation → List Float → Action → Double → TrajectoryStep P
  make_step s features a log_prob = record blank_step {
    state = s;
    encoded_observation_features = features;
    action = a;
    behaviour_log_prob = log_prob;
  }

  -- `TrajectoryBuffer(size_t)`
  abbrev pub new_buffer : ℕ → TrajectoryBuffer P
  new_buffer unroll = record {
    unroll_length = unroll;
    buffer = [];
    pending_step = blank_step;
    has_pending = false;
    initial_recurrent_state = none;
  }

  unfoldable pub push_step : TrajectoryBuffer P → TrajectoryStep P → TrajectoryBuffer P
  push_step b step = record b { buffer = b.buffer ++ (step ∷ []) }

  unfoldable pub set_pending_step :
      TrajectoryBuffer P → Observation → List Float → Action → Double → TrajectoryBuffer P
  set_pending_step b state features action log_prob = record b {
    pending_step = make_step state features action log_prob;
    has_pending = true;
  }

  -- `none` is the `std::logic_error`. The members of the moved-from `pending_step_` are not read
  -- again before they are overwritten; `moved` gives what the move leaves in them.
  unfoldable pub complete_pending_step :
      (moved : TrajectoryStep P → TrajectoryStep P)
      → TrajectoryBuffer P
      → Double
      → Bool
      → RewardTerms
      → Option (TrajectoryStep P × TrajectoryBuffer P)
  complete_pending_step moved b reward is_terminal reward_terms = elim b.has_pending [
    | false ↦ none
    | true ↦
        let done : TrajectoryStep P = record (b.pending_step) {
          reward = reward;
          is_terminal = is_terminal;
          reward_terms = reward_terms;
        } in
        some (done, record b { pending_step = moved done; has_pending = false })
  ]

  unfoldable pub is_full : TrajectoryBuffer P → Bool
  is_full b = leb b.unroll_length (length b.buffer)

  unfoldable pub empty : TrajectoryBuffer P → Bool
  empty b = elim b.buffer [ [] ↦ true | _ ∷ _ ↦ false ]

  unfoldable pub extract : TrajectoryBuffer P → List (TrajectoryStep P) × TrajectoryBuffer P
  extract b = (b.buffer, record b { buffer = [] })

  unfoldable pub set_initial_recurrent_state :
      TrajectoryBuffer P → RecurrentStateSnapshot P → TrajectoryBuffer P
  set_initial_recurrent_state b state = elim b.initial_recurrent_state [
    | none ↦ record b { initial_recurrent_state = some state }
    | some _ ↦ b
  ]

  unfoldable pub extract_initial_recurrent_state :
      TrajectoryBuffer P → Option (RecurrentStateSnapshot P) × TrajectoryBuffer P
  extract_initial_recurrent_state b =
      (b.initial_recurrent_state, record b { initial_recurrent_state = none })

  unfoldable pub clear : TrajectoryBuffer P → TrajectoryBuffer P
  clear b = record b {
    buffer = [];
    has_pending = false;
    pending_step = blank_step;
    initial_recurrent_state = none;
  }
