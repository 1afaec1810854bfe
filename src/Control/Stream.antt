-- ===== src/Control/Stream.antt =====
-- `RolloutStreamClient` of apps/worker/src/rollout_stream_client.cpp, which sends batches of
-- rollouts to the learner and opens its stream when it has none. `mutex_` makes each method one step.
-- gRPC, the clock and the hash are fields of `Comm`, with `Net` as their state; `stream` holds the
-- target that the open stream was opened to. `sent` lists the requests that `Write` took, the last
-- first, each with the target that the client had then. Logging is left out.
pub mod Delivery
pub mod Failure
use ddrl_nav2d.Prelude.{
  ℕ, ◌+◌, ◌%◌, ◌^◌, Bool, true, false, not, ◌&&◌, ◌||◌, if◌then◌else◌, List, [], ◌∷◌, map, Option,
  none, some, length,
}
use ddrl_nav2d.Worker.Trajectory.{Payload, RecurrentStateSnapshot, TrajectoryStep}
use ddrl_nav2d.Worker.SimLoop.{Rollout, is_nil}

module _ (P : Payload) where
  -- `ddrl::comm::TrajectoryStep`
  pub record StepMessage : Type 0 where
    pub features : List P.Float
    pub continuous : List P.Float
    pub log_prob : P.Double
    pub raw_action : List P.Float
    pub reward : P.Double
    pub terminal : Bool
    pub timestamp_sec : P.Double
    pub reward_terms : P.RewardTerms

module _ (P : Payload) where
  -- `ddrl::comm::Rollout`
  pub record RolloutMessage : Type 0 where
    pub worker_id : ℕ
    pub sim_id : ℕ
    pub rollout_id : ℕ
    pub policy_version : ℕ
    pub episode_return : P.Double
    pub episode_terminal : Bool
    pub initial_recurrent_state : Option (RecurrentStateSnapshot P)
    pub steps : List (StepMessage P)
    pub step_count : ℕ
    pub is_expert : Bool

module _ (P : Payload) where
  pub record RolloutBatch : Type 0 where
    pub batch_id : ℕ
    pub created_unix_ms : ℕ
    pub rollouts : List (RolloutMessage P)

pub record Comm : Type 1 where
  pub payload : Payload
  pub Target : Type 0
  pub is_empty : Target → Bool
  pub same : Target → Target → Bool
  pub Architecture : Type 0
  pub encode_observation : payload.Observation → Architecture → List payload.Float
  pub normalized_action : payload.Action → List payload.Float
  pub has_raw_policy_action : payload.Action → Bool
  pub raw_policy_action : payload.Action → List payload.Float
  pub action_timestamp : payload.Action → payload.Double
  pub worker_hash : ℕ
  pub Net : Type 0
  pub system_now_ms : Net → ℕ
  pub steady_now : Net → ℕ
  -- Whether five seconds have passed from one time to another.
  pub stats_period_over : ℕ → ℕ → Bool
  pub open_stream : Target → Net → Bool × Net
  pub write : RolloutBatch payload → Net → Bool × Net
  pub byte_size : RolloutBatch payload → ℕ

module _ (C : Comm) where
  pub record Sent : Type 0 where
    pub stream_target : C.Target
    pub wanted_target : C.Target
    pub batch : RolloutBatch C.payload

  pub record StatsWindow : Type 0 where
    pub start : ℕ
    pub batches : ℕ
    pub rollouts : ℕ
    pub steps : ℕ
    pub bytes : ℕ

module _ (C : Comm) where
  pub record Client : Type 0 where
    pub target : C.Target
    pub architecture : C.Architecture
    pub stream : Option C.Target
    pub batch_sequence : ℕ
    pub stats : StatsWindow C
    pub has_logger : Bool
    pub net : C.Net
    pub sent : List (Sent C)

module _ (C : Comm) where
  open C use {payload}

  abbrev features_or_encode :
      C.Architecture → TrajectoryStep payload → List payload.Float → List payload.Float
  features_or_encode architecture step [] = C.encode_observation step.state architecture
  features_or_encode architecture step (v ∷ vs) = v ∷ vs

  unfoldable pub fill_step : C.Architecture → TrajectoryStep payload → StepMessage payload
  fill_step architecture step = record {
    features = features_or_encode architecture step step.encoded_observation_features;
    continuous = C.normalized_action step.action;
    log_prob = step.behaviour_log_prob;
    raw_action =
        if C.has_raw_policy_action step.action then C.raw_policy_action step.action else [];
    reward = step.reward;
    terminal = step.is_terminal;
    timestamp_sec = C.action_timestamp step.action;
    reward_terms = step.reward_terms;
  }

  -- A snapshot without hidden or cell values is not sent.
  abbrev pub fill_recurrent_state :
      Option (RecurrentStateSnapshot payload) → Option (RecurrentStateSnapshot payload)
  fill_recurrent_state none = none
  fill_recurrent_state (some state) =
      if is_nil state.hidden || is_nil state.cell then none else some state

  unfoldable pub fill_rollout : C.Architecture → Rollout payload → RolloutMessage payload
  fill_rollout architecture rollout = record {
    worker_id = C.worker_hash;
    sim_id = rollout.sim_id;
    rollout_id = rollout.rollout_id;
    policy_version = rollout.policy_version;
    episode_return = rollout.episode_return;
    episode_terminal = rollout.is_terminal;
    initial_recurrent_state = fill_recurrent_state rollout.initial_recurrent_state;
    steps = map (fill_step architecture) rollout.steps;
    step_count = length rollout.steps;
    is_expert = rollout.is_expert;
  }

  abbrev pub to_proto_batch : List (Rollout payload) → ℕ → ℕ → C.Architecture → RolloutBatch payload
  to_proto_batch rollouts batch_sequence now architecture = record {
    batch_id = batch_sequence;
    created_unix_ms = now;
    rollouts = map (fill_rollout architecture) rollouts;
  }

  abbrev pub reset_stream : Client C → Client C
  reset_stream c = record c { stream = none }

  abbrev pub opened : Bool × C.Net → Client C → Bool × Client C
  opened (true, net) c = (true, record c { stream = some c.target; net = net })
  opened (false, net) c = (false, reset_stream (record c { net = net }))

  abbrev pub ensure_stream_at : Option C.Target → Client C → Bool × Client C
  ensure_stream_at (some t) c = (true, c)
  ensure_stream_at none c =
      let made = opened (C.open_stream c.target c.net) c in
      if C.is_empty c.target then (false, c) else made

  abbrev pub set_target : C.Target → Client C → Client C
  set_target target c =
      if C.same c.target target then c else reset_stream (record c { target = target })

  abbrev pub set_architecture : C.Architecture → Client C → Client C
  set_architecture architecture c = record c { architecture = architecture }

  abbrev total_steps : List (Rollout payload) → ℕ
  total_steps [] = 0
  total_steps (r ∷ rs) = (length r.steps + total_steps rs) % 2 ^ 64

  -- The statistics of the last seconds, which are cleared when they are reported.
  abbrev pub count_batch : List (Rollout payload) → RolloutBatch payload → Client C → Client C
  count_batch batch message c =
      let counted : StatsWindow C = record c.stats {
        batches = (c.stats.batches + 1) % 2 ^ 64;
        rollouts = (c.stats.rollouts + length batch) % 2 ^ 64;
        steps = (c.stats.steps + total_steps batch) % 2 ^ 64;
        bytes = (c.stats.bytes + C.byte_size message) % 2 ^ 64;
      } in
      let cleared : StatsWindow C = record {
        start = C.steady_now c.net;
        batches = 0;
        rollouts = 0;
        steps = 0;
        bytes = 0;
      } in
      record c {
        stats =
            if C.stats_period_over counted.start cleared.start && c.has_logger
            then cleared
            else counted;
      }

  -- `Write` and what follows it, on the target that the stream was opened to.
  abbrev pub after_write :
      Bool × C.Net
      → List (Rollout payload)
      → RolloutBatch payload
      → C.Target
      → Client C
      → Bool × Client C
  after_write (false, net) batch message to c = (false, reset_stream (record c { net = net }))
  after_write (true, net) batch message to c = (
    true,
    count_batch batch message (record c {
      net = net;
      sent = record { stream_target = to; wanted_target = c.target; batch = message } ∷ c.sent;
    }),
  )

  abbrev pub write_batch : List (Rollout payload) → Option C.Target → Client C → Bool × Client C
  write_batch batch none c = (false, c)
  write_batch batch (some to) c =
      let next = (c.batch_sequence + 1) % 2 ^ 64 in
      let message = to_proto_batch batch next (C.system_now_ms c.net) c.architecture in
      after_write (C.write message c.net) batch message to (record c { batch_sequence = next })

  abbrev pub send_on : List (Rollout payload) → Bool × Client C → Bool × Client C
  send_on batch (true, c) = write_batch batch c.stream c
  send_on batch (false, c) = (false, c)

  unfoldable pub send : List (Rollout payload) → Client C → Bool × Client C
  send [] c = (true, c)
  send (r ∷ rs) c =
      let sent = send_on (r ∷ rs) (ensure_stream_at c.stream c) in
      if C.is_empty c.target then (false, c) else sent

module _ (C : Comm) where
  -- A call of the client.
  pub data Call : Type 0 where
    sent_batch : List (Rollout C.payload) → Call
    changed_target : C.Target → Call
    changed_architecture : C.Architecture → Call

module _ (C : Comm) where
  abbrev pub call : Call C → Client C → Client C
  call (Call.sent_batch batch) c = (send C batch c).1
  call (Call.changed_target target) c = set_target C target c
  call (Call.changed_architecture architecture) c = set_architecture C architecture c

  abbrev pub calls : List (Call C) → Client C → Client C
  calls [] c = c
  calls (k ∷ ks) c = calls ks (call k c)

  abbrev pub new_client : C.Target → C.Architecture → Bool → C.Net → Client C
  new_client target architecture has_logger net = record {
    target = target;
    architecture = architecture;
    stream = none;
    batch_sequence = 0;
    stats = record { start = C.steady_now net; batches = 0; rollouts = 0; steps = 0; bytes = 0 };
    has_logger = has_logger;
    net = net;
    sent = [];
  }
