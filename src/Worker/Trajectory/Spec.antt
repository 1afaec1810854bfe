-- ===== src/Worker/Trajectory/Spec.antt =====
-- What a client of the trajectory buffer sees: its calls, its replies, and the state that explains
-- them: the completed steps in order, the step that waits for its reward, the recurrent state.
use ddrl_nav2d.Prelude.{ℕ, Bool, true, false, Option, none, some, List, [], ◌∷◌, ◌++◌, length, leb}
use ddrl_nav2d.Worker.Trajectory.{Payload, RecurrentStateSnapshot, TrajectoryStep, make_step}

pub data Call (P : Payload) : Type 0 where
  push : TrajectoryStep P → Call P
  set_pending : P.Observation → List P.Float → P.Action → P.Double → Call P
  complete : P.Double → Bool → P.RewardTerms → Call P
  take_steps : Call P
  set_initial : RecurrentStateSnapshot P → Call P
  take_initial : Call P
  reset : Call P
  ask_full ask_empty ask_pending : Call P

pub data Reply (P : Payload) : Type 0 where
  done : Reply P
  logic_error : Reply P
  step : TrajectoryStep P → Reply P
  steps : List (TrajectoryStep P) → Reply P
  initial : Option (RecurrentStateSnapshot P) → Reply P
  answer : Bool → Reply P

pub record View (P : Payload) : Type 0 where
  pub completed : List (TrajectoryStep P)
  pub waiting : Option (TrajectoryStep P)
  pub initial_state : Option (RecurrentStateSnapshot P)

module _ (P : Payload) where
  -- The step that a reward completes.
  abbrev pub reward_step : TrajectoryStep P → P.Double → Bool → P.RewardTerms → TrajectoryStep P
  reward_step s r t terms = record s { reward = r; is_terminal = t; reward_terms = terms }

  abbrev pub complete_waiting :
      View P → Option (TrajectoryStep P) → P.Double → Bool → P.RewardTerms → Reply P × View P
  complete_waiting v none r t terms = (logic_error, v)
  complete_waiting v (some s) r t terms =
      (step (reward_step s r t terms), record v { waiting = none })

  -- The first snapshot of a fragment is kept.
  abbrev pub first {ℓ} : {A : Type ℓ} → Option A → A → Option A
  first none a = some a
  first (some b) a = some b

  abbrev pub is_some {ℓ} : {A : Type ℓ} → Option A → Bool
  is_some none = false
  is_some (some a) = true

  abbrev pub is_nil {ℓ} : {A : Type ℓ} → List A → Bool
  is_nil [] = true
  is_nil (x ∷ xs) = false

  unfoldable pub spec_call : ℕ → View P → Call P → Reply P × View P
  spec_call unroll v (push s) = (done, record v { completed = v.completed ++ (s ∷ []) })
  spec_call unroll v (set_pending s f a l) =
      (done, record v { waiting = some (make_step P s f a l) })
  spec_call unroll v (complete r t terms) = complete_waiting v v.waiting r t terms
  spec_call unroll v take_steps = (steps v.completed, record v { completed = [] })
  spec_call unroll v (set_initial s) = (done, record v { initial_state = first v.initial_state s })
  spec_call unroll v take_initial = (initial v.initial_state, record v { initial_state = none })
  spec_call unroll v reset = (done, record { completed = []; waiting = none; initial_state = none })
  spec_call unroll v ask_full = (answer (leb unroll (length v.completed)), v)
  spec_call unroll v ask_empty = (answer (is_nil v.completed), v)
  spec_call unroll v ask_pending = (answer (is_some v.waiting), v)

  unfoldable pub spec_run : ℕ → View P → List (Call P) → List (Reply P)
  spec_run unroll v [] = []
  spec_run unroll v (c ∷ cs) = let (r, v') = spec_call unroll v c in r ∷ spec_run unroll v' cs
