-- ===== src/Control/Subscriber.antt =====
-- `PolicySubscriber` of apps/worker/src/policy_subscriber.cpp: the thread that reads policies from
-- the learner's stream, and the calls of other threads. A step of the thread goes from one access
-- to what it shares with them to the next; what gRPC and the scheduler do in a step is its input.
-- `cancelled` says that `TryCancel` was called on the thread's context, after which its `Read`
-- returns false, its `Write` fails and its `Finish` returns. The delay before connecting again
-- changes no state here.
pub mod Stop
pub mod Version
use ddrl_nav2d.Prelude.{
  ℕ, Bool, true, false, not, ◌&&◌, ◌||◌, if◌then◌else◌, List, [], ◌∷◌, Option, none, some,
}

-- The types of targets and models; `is_empty` tests a target, and `from_payload` is
-- `PolicyModel::from_payload`, which makes a model or fails; a payload's model is its bytes.
pub record Policies : Type 1 where
  pub Target : Type 0
  pub empty_target : Target
  pub is_empty : Target → Bool
  pub Bytes : Type 0
  pub PolicyModel : Type 0
  pub from_payload : ℕ → Bytes → Option PolicyModel
  pub model_version : PolicyModel → ℕ

module _ (P : Policies) where
  -- `PolicyPayload`, made of a push by `build_payload`.
  pub record PolicyPayload : Type 0 where
    pub version : ℕ
    pub onnx_model : P.Bytes

  -- Where the thread stands in `run_loop`. `head`, `reading` and `closed` test `stop_` next.
  pub data Place : Type 0 where
    idle : Place
    head : Place
    waiting : Place
    targeted : P.Target → Place
    connecting : P.Target → Place
    failing : Place
    reading : Place
    blocked : Place
    acknowledging : Place
    closing : Place
    closed : Place
    sleeping : Place
    finished : Place

module _ (P : Policies) where
  -- What a step meets: a stream is refused, or accepted with the subscription; a push is read, or
  -- the stream has ended, with its status; `nothing` leaves a call of gRPC blocked.
  pub data Input : Type 0 where
    nothing : Input
    refused : Input
    accepted : Input
    message : PolicyPayload P → Input
    ended : Input

  pub record Subscriber : Type 0 where
    pub place : Place P
    pub stop_requested : Bool
    pub target : P.Target
    pub active_context : Bool
    pub cancelled : Bool
    pub has_policy_config : Bool
    pub last_version : ℕ
    pub model : Option P.PolicyModel
    pub version : ℕ

module _ (P : Policies) where
  unfoldable pub new_subscriber : Subscriber P
  new_subscriber = record {
    place = Place.idle;
    stop_requested = false;
    target = P.empty_target;
    active_context = false;
    cancelled = false;
    has_policy_config = false;
    last_version = 0;
    model = none;
    version = 0;
  }

  abbrev pub store_model : Option P.PolicyModel → ℕ → Subscriber P → Subscriber P
  store_model none version s = s
  store_model (some built) version s = record s { model = some built; version = version }

  abbrev pub apply_update : PolicyPayload P → Subscriber P → Subscriber P
  apply_update payload s =
      store_model (P.from_payload payload.version payload.onnx_model) payload.version s

  -- The body of the loop over `Read`, for a push.
  abbrev pub receive : PolicyPayload P → Subscriber P → Subscriber P
  receive payload s =
      let seen : Subscriber P = record s { last_version = payload.version } in
      if s.has_policy_config then apply_update payload seen else seen

  abbrev pub read_step : Input P → Subscriber P → Subscriber P
  read_step (Input.message payload) s = record (receive payload s) { place = Place.acknowledging }
  read_step Input.ended s = record s { place = Place.closing }
  read_step i s = s

  -- `StreamPolicyUpdates` and the `Write` of the subscription, which fails on a stream that ended or
  -- was cancelled.
  abbrev pub connect_step : Input P → Subscriber P → Subscriber P
  connect_step Input.accepted s = record s { place = Place.reading }
  connect_step Input.refused s = record s { active_context = false; place = Place.sleeping }
  connect_step Input.ended s = record s { place = Place.failing }
  connect_step i s = if s.cancelled then record s { place = Place.failing } else s

  -- The `Write` of an acknowledgement, of which the result is not read.
  abbrev pub acknowledge_step : Input P → Subscriber P → Subscriber P
  acknowledge_step Input.nothing s = if s.cancelled then record s { place = Place.reading } else s
  acknowledge_step i s = record s { place = Place.reading }

  -- `Finish`, which waits for the status of the stream, and the end of the context.
  abbrev pub finish_step : Input P → Place P → Subscriber P → Subscriber P
  finish_step Input.ended next s = record s { active_context = false; place = next }
  finish_step i next s =
      if s.cancelled then record s { active_context = false; place = next } else s

  abbrev pub step_at : Place P → Input P → Subscriber P → Subscriber P
  step_at Place.idle i s = s
  step_at Place.head i s = record s {
    place = if s.stop_requested then Place.finished else Place.waiting;
  }
  step_at Place.waiting i s =
      if s.stop_requested
      then record s { place = Place.finished }
      else if P.is_empty s.target
      then s
      else record s { place = Place.targeted s.target }
  step_at (Place.targeted t) i s = record s {
    active_context = true;
    cancelled = false;
    place = Place.connecting t;
  }
  step_at (Place.connecting t) i s = connect_step i s
  step_at Place.reading i s = record s {
    place = if s.stop_requested then Place.closing else Place.blocked;
  }
  step_at Place.blocked i s =
      if s.cancelled then record s { place = Place.closing } else read_step i s
  step_at Place.acknowledging i s = acknowledge_step i s
  step_at Place.failing i s = finish_step i Place.sleeping s
  step_at Place.closing i s = finish_step i Place.closed s
  step_at Place.closed i s = record s {
    place = if s.stop_requested then Place.finished else Place.sleeping;
  }
  step_at Place.sleeping i s = record s { place = Place.head }
  step_at Place.finished i s = s

  -- One step of `run_loop`.
  unfoldable pub thread_step : Input P → Subscriber P → Subscriber P
  thread_step i s = step_at s.place i s

  -- `start`, on a thread that is not joinable; it does nothing on one that is.
  abbrev pub start_at : Place P → Subscriber P → Subscriber P
  start_at Place.idle s = record s { stop_requested = false; place = Place.head }
  start_at p s = s

  unfoldable pub start : Subscriber P → Subscriber P
  start s = start_at s.place s

  abbrev pub request_reconnect : Subscriber P → Subscriber P
  request_reconnect s = if s.active_context then record s { cancelled = true } else s

  -- The two steps of `stop` before the join, and those of `set_target`.
  abbrev pub request_stop : Subscriber P → Subscriber P
  request_stop s = record s { stop_requested = true }

  abbrev pub store_target : P.Target → Subscriber P → Subscriber P
  store_target t s = record s { target = t }

  -- `stop` from the join on, which waits for the thread to return.
  abbrev pub join_at : Place P → Subscriber P → Subscriber P
  join_at Place.finished s = record s { place = Place.idle }
  join_at p s = s

  pub join : Subscriber P → Subscriber P
  join s = join_at s.place s

  abbrev pub set_policy_config : Subscriber P → Subscriber P
  set_policy_config s = record s { has_policy_config = true }

  -- `version()`
  abbrev pub version_of : Option P.PolicyModel → ℕ → ℕ
  version_of none stored = stored
  version_of (some m) stored = P.model_version m

  abbrev pub current_version : Subscriber P → ℕ
  current_version s = version_of s.model s.version

module _ (P : Policies) where
  -- A step of the thread, or of a call of another thread.
  pub data Event : Type 0 where
    stepped : Input P → Event
    started : Event
    stop_stored : Event
    reconnect_requested : Event
    target_stored : P.Target → Event
    joined : Event
    config_set : Event

module _ (P : Policies) where
  abbrev pub happen : Event P → Subscriber P → Subscriber P
  happen (Event.stepped i) s = thread_step P i s
  happen Event.started s = start P s
  happen Event.stop_stored s = request_stop P s
  happen Event.reconnect_requested s = request_reconnect P s
  happen (Event.target_stored t) s = store_target P t s
  happen Event.joined s = join P s
  happen Event.config_set s = set_policy_config P s

  abbrev pub run : List (Event P) → Subscriber P → Subscriber P
  run [] s = s
  run (e ∷ es) s = run es (happen e s)

  abbrev pub steps : List (Input P) → Subscriber P → Subscriber P
  steps [] s = s
  steps (i ∷ is) s = steps is (thread_step P i s)
