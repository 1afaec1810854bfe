-- ===== src/Control/Tests.antt =====
-- A subscriber over numbers: a model is its version, and a payload of zero bytes makes none.
use ddrl_nav2d.Prelude.{
  ℕ, suc, ◌%◌, not, All, ◌≡◌, refl, Bool, true, false, ◌==◌, List, [], ◌∷◌, Option, none, some,
  arith,
}
use ddrl_nav2d.Worker.Trajectory.{Payload}
use ddrl_nav2d.Worker.SimLoop.{Rollout}
use ddrl_nav2d.Control.Stream.{Comm, Call, calls, new_client, send}
use ddrl_nav2d.Control.Stream.Delivery.{Falling, delivery_lem}
use ddrl_nav2d.Control.Stream.Failure.{Outcome, send-Outcome}
use ddrl_nav2d.Control.Subscriber.{Policies, Input, Subscriber, Event, new_subscriber, run, steps}

abbrev build_model : ℕ → ℕ → Option ℕ
build_model version ℕ.zero = none
build_model version (ℕ.suc n) = some version

abbrev policies : Policies
policies = record {
  Target = ℕ;
  empty_target = 0;
  is_empty = λ t. t == 0;
  Bytes = ℕ;
  PolicyModel = ℕ;
  from_payload = build_model;
  model_version = λ m. m;
}

build_model-version : (version bytes m : ℕ) → build_model version bytes ≡ some m → m ≡ version
build_model-version version bytes m h = ground arith

abbrev push : ℕ → ℕ → Input policies
push version bytes = Input.message (record { version = version; onnx_model = bytes })

abbrev events : List (Event policies)
events =
    Event.config_set
    ∷ (Event.target_stored 5
        ∷ (Event.started
            ∷ (Event.stepped Input.nothing
                ∷ (Event.stepped Input.nothing
                    ∷ (Event.stepped Input.nothing
                        ∷ (Event.stepped Input.accepted
                            ∷ (Event.stepped Input.nothing
                                ∷ (Event.stepped (push 3 10)
                                    ∷ (Event.stepped Input.nothing ∷ [])))))))))

abbrev silence : List (Input policies)
silence = Input.nothing ∷ (Input.nothing ∷ (Input.nothing ∷ (Input.nothing ∷ (Input.nothing ∷ []))))

abbrev reading : Subscriber policies
reading = run policies events (new_subscriber policies)

abbrev numbers : Payload
numbers = record {
  Observation = ℕ;
  Action = ℕ;
  RewardTerms = ℕ;
  Float = ℕ;
  Double = ℕ;
  no_observation = 0;
  no_action = 0;
  no_terms = 0;
  nought = 0;
}

-- A network that counts what it is asked to do, and fails every third time.
abbrev attempt_at : ℕ → Bool × ℕ
attempt_at n = (not (n % 3 == 2), suc n)

abbrev comm : Comm
comm = record {
  payload = numbers;
  Target = ℕ;
  is_empty = λ t. t == 0;
  same = λ s t. s == t;
  Architecture = ℕ;
  encode_observation = λ o a. o ∷ [];
  normalized_action = λ a. a ∷ [];
  has_raw_policy_action = λ a. true;
  raw_policy_action = λ a. a ∷ [];
  action_timestamp = λ a. a;
  worker_hash = 7;
  Net = ℕ;
  system_now_ms = λ n. n;
  steady_now = λ n. n;
  stats_period_over = λ a b. false;
  open_stream = λ t n. attempt_at n;
  write = λ m n. attempt_at n;
  byte_size = λ m. 10;
}

abbrev rollout : Rollout numbers
rollout = record {
  sim_id = 1;
  rollout_id = 1;
  policy_version = 1;
  is_expert = false;
  episode_return = 0;
  is_terminal = true;
  timestamp = 0;
  steps = [];
  initial_recurrent_state = none;
}

abbrev client_calls : List (Call comm)
client_calls =
    Call.sent_batch (rollout ∷ [])
    ∷ (Call.changed_target 4
        ∷ (Call.sent_batch (rollout ∷ []) ∷ (Call.sent_batch (rollout ∷ []) ∷ [])))

delivery_lem_example :
    All
      (λ m. m.stream_target ≡ m.wanted_target)
      (calls comm client_calls (new_client comm 3 0 true 0)).sent
    × Falling comm (calls comm client_calls (new_client comm 3 0 true 0)).sent
delivery_lem_example = delivery_lem comm 3 0 true 0 client_calls (omega arith)

send-Outcome_example :
    Outcome comm
      (new_client comm 3 0 true 1)
      (send comm (rollout ∷ []) (new_client comm 3 0 true 1))
send-Outcome_example = send-Outcome comm rollout [] (new_client comm 3 0 true 1) refl
