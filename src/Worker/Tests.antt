-- ===== src/Worker/Tests.antt =====
-- Small runs of the worker's components, and their theorems at concrete inputs.
use ddrl_nav2d.Prelude.{
  ℕ, ◌+◌, ◌≡◌, ◌≢◌, ◌≤◌, ◌++◌, refl, true, false, none, some, List, [], ◌∷◌, map, concat, All,
  length, arith, ◌==◌, ◌⊎◌,
}
use ddrl_nav2d.Worker.Trajectory.{Payload, new_buffer, make_step}
use ddrl_nav2d.Worker.Trajectory.Spec.{
  Call, push, set_pending, complete, take_steps, ask_full, Reply, done, logic_error, step, steps,
  answer, spec_run,
}
use ddrl_nav2d.Worker.Trajectory.Refine
use ddrl_nav2d.Worker.Trajectory.Spec
use ddrl_nav2d.Worker.Publisher.{Params, Publisher, Thread, init, request_stop, thread_step, join}
use ddrl_nav2d.Worker.Publisher.Schedule.{Event, run, accepted, rounds}
use ddrl_nav2d.Worker.Publisher.Fifo.{fifo, batch_of}
use ddrl_nav2d.Worker.Publisher.Bounds.{bounded, IsBatch}
use ddrl_nav2d.Worker.Publisher.Progress.{drain, stop_returns, stalled}
use ddrl_nav2d.Worker.SimLoop.{Env, Config, Phase, Rollout, boot, new_instance}
use ddrl_nav2d.Worker.SimLoop.Fragment.{IsFragment, Numbered}
use ddrl_nav2d.Worker.SimLoop.Delivery.{observed}
use ddrl_nav2d.Worker.SimLoop.Run.{after, delivery, fragments, never_crashes}

-- Everything that the buffer only moves is a number.
abbrev numbers : Payload
numbers = record {
  Observation = ℕ;
  Action = ℕ;
  RewardTerms = ℕ;
  Float = ℕ;
  Double = ℕ;
  no_observation = 0;
  no_action = 0;
  no_terms = 0;
  nought = 0;
}

abbrev script : List (Call numbers)
script =
    complete 1 false 0
    ∷ set_pending 5 (1 ∷ []) 2 3
    ∷ complete 9 true 4
    ∷ push (make_step numbers 1 [] 1 1)
    ∷ ask_full
    ∷ take_steps
    ∷ ask_full
    ∷ []

run_refines_example :
    Refine.run numbers (λ s. s) (new_buffer numbers 1) script
    ≡ spec_run numbers 1 (record { completed = []; waiting = none; initial_state = none }) script
run_refines_example = Refine.run_refines numbers (λ s. s) 1 script

script_replies :
    spec_run numbers 1 (record { completed = []; waiting = none; initial_state = none }) script
    ≡ logic_error
      ∷ done
      ∷ step (record (make_step numbers 5 (1 ∷ []) 2 3) {
        reward = 9;
        is_terminal = true;
        reward_terms = 4;
      })
      ∷ done
      ∷ answer true
      ∷ steps (make_step numbers 1 [] 1 1 ∷ [])
      ∷ answer false
      ∷ []
unfolding spec_run Spec.spec_call
script_replies = refl

abbrev params : Params
params = record { enable_streaming = true; max_queue_depth = 2; max_batch_rollouts = 2 }

-- Three rollouts for two places: the last is refused.
abbrev schedule : List (Event ℕ)
schedule =
    Event.starts
    ∷ Event.enqueues 1
    ∷ Event.enqueues 2
    ∷ Event.enqueues 3
    ∷ Event.ticks
    ∷ Event.enqueues 4
    ∷ Event.ticks
    ∷ Event.stops
    ∷ []

fifo_example :
    accepted (init params) schedule
    ≡ concat (run (init params) schedule).published
      ++ (batch_of (run (init params) schedule).thread ++ (run (init params) schedule).queue)
fifo_example = fifo params schedule

bounded_example :
    (length (run (init params) schedule).queue ≤ 2)
    × All (IsBatch {R = ℕ} params) (run (init params) schedule).published
bounded_example = bounded params schedule

abbrev serving : Publisher ℕ
serving = record {
  params = params;
  queue = 1 ∷ 2 ∷ 3 ∷ [];
  running = true;
  should_stop = false;
  thread = Thread.waiting;
  published = [];
}

drain_example :
    ((rounds 2 serving).queue ≡ []) × (concat (rounds 2 serving).published ≡ 1 ∷ 2 ∷ 3 ∷ [])
drain_example = drain 2 serving (omega arith) (refl, refl) (omega arith)

stop_returns_example :
    let q = thread_step (thread_step (request_stop serving)) in
    (q.thread ≡ Thread.idle)
    × ((join q).running ≡ false)
    × (length q.published ≤ 1)
    × ((q.queue ≡ 1 ∷ 2 ∷ 3 ∷ []) ⊎ (q.queue ≡ 3 ∷ []))
stop_returns_example = stop_returns serving

stalled_example :
    rounds 7 (record serving { params = record params { max_batch_rollouts = 0 } })
    ≡ record serving { params = record params { max_batch_rollouts = 0 } }
stalled_example =
    stalled 7 (record serving { params = record params { max_batch_rollouts = 0 } }) refl
      (refl, refl)

-- The simulator's state counts its steps; every third step ends the episode.
abbrev counting : Env
counting = record {
  payload = numbers;
  Sim = ℕ;
  reset = λ s. (s + 1, some 100);
  advance =
      λ s a. (s + 1, some (record { observation = s + 1; reward_terms = a; episode_return = s }));
  reward_of = λ o. o;
  is_terminal_of = λ o. o == 4;
  encode = λ o. o ∷ [];
  generate_action = λ ctx s o f. (ctx, record { action = o; log_prob = 0 });
  now = λ s. s;
  current_policy_version = λ s. 1;
  float_zero = 0;
  moved = λ s. s;
}

abbrev config : Config
config = record {
  sim_id = 0;
  instance_count = 1;
  has_publisher = true;
  neural_policy = true;
  expert_policy = false;
  lstm_model = true;
  lstm_hidden_dim = 2;
}

delivery_example :
    let i = after counting config 2 5 0 in
    concat (map (λ (r : Rollout numbers). r.steps) i.emitted) ++ i.trajectory.buffer
    ≡ observed counting config 5 (boot counting config (new_instance counting config 2 0))
delivery_example = delivery counting config 2 (refl, omega arith) 5 0

fragments_example :
    All (IsFragment numbers 2) (after counting config 2 5 0).emitted
    × Numbered numbers 0 (after counting config 2 5 0).emitted
fragments_example = fragments counting config 2 (refl, omega arith) 5 0

never_crashes_example : (after counting config 2 5 0).phase ≢ Phase.crashed
never_crashes_example = never_crashes counting config 2 (refl, omega arith) 5 0
