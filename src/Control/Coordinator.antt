-- ===== src/Control/Coordinator.antt =====
-- `CoordinatorClient` of apps/worker/src/coordinator_client.cpp: its state, and the registration. A
-- thread object is joinable where `place` is not `unborn`. The time of sleeps and the log are left
-- out.
pub mod Threads
pub mod States
pub mod Session
pub mod HalfClose
pub mod Stop
pub mod Ends
mod Tests
use ddrl_nav2d.Prelude.{
  ℕ, ◌+◌, Bool, true, false, not, ◌&&◌, ◌||◌, if◌then◌else◌, List, [], ◌∷◌, ◌++◌, Option, none,
  some, ltb,
}

-- Names stand for strings, and `Status` for what the status provider makes.
pub record Coordinators : Type 1 where
  pub Name : Type 0
  pub is_empty : Name → Bool
  pub same : Name → Name → Bool
  pub identity : Name
  pub worker_identity : Name
  pub Directive : Type 0
  pub Status : Type 0

module _ (P : Coordinators) where
  open P use {Name}

  pub record CoordinatorCfg : Type 0 where
    pub worker_identity : Name
    pub hostname : Name
    pub capabilities : List (Name × Name)
    pub labels : List (Name × Name)

  pub record WorkerHello : Type 0 where
    pub hostname : Name
    pub version : Name
    pub capabilities : List (Name × Name)
    pub labels : List (Name × Name)

  pub record WorkerSession : Type 0 where
    pub worker_id : Name
    pub session_token : Name
    pub learner_target : Name
    pub heartbeat_interval_ms : ℕ

  pub record SessionInfo : Type 0 where
    pub assigned_identity : Name
    pub session_token : Name
    pub learner_target : Name
    pub heartbeat_interval_ms : ℕ

  pub record WorkerHeartbeat : Type 0 where
    pub worker_id : Name
    pub session_token : Name
    pub unix_ms : ℕ
    pub status : P.Status

-- Where the heartbeat thread stands in `heartbeat_loop`.
pub data Place : Type 0 where
  unborn : Place
  head : Place
  opening : Place
  reading : Place
  blocked : Place
  closing : Place
  joining : Place
  finishing : Place
  registering : Place
  pausing : Place
  exiting : Place
  finished : Place

-- Where the writer's thread stands; it is `absent` from its join to the next stream.
pub data Writer : Type 0 where
  absent : Writer
  testing : Writer
  writing : Writer
  resting : Writer
  half_closing : Writer
  leaving : Writer
  returned : Writer

-- Where the worker's thread stands in `stop`.
pub data Caller : Type 0 where
  outside : Caller
  flagged : Caller
  waiting : Caller
  joined : Caller

module _ (P : Coordinators) where
  -- What gRPC answers: a stream, what `Read` gives, the status of `Finish` (`closed` says whether it
  -- is UNAUTHENTICATED or NOT_FOUND), and the reply to a registration.
  pub data Answer : Type 0 where
    nothing : Answer
    opened : Answer
    directive : P.Directive → Answer
    ended : Answer
    closed : Bool → Answer
    registered : WorkerSession P → Answer
    refused : Answer

  -- `half_closes` counts the calls of `WritesDone` on the stream; `terminated` is `std::terminate`.
  pub record Client : Type 0 where
    pub config : CoordinatorCfg P
    pub version : P.Name
    pub session : SessionInfo P
    pub stream_session : SessionInfo P
    pub running : Bool
    pub stop_requested : Bool
    pub place : Place
    pub writer : Writer
    pub writer_running : Bool
    pub caller : Caller
    pub half_closes : ℕ
    pub terminated : Bool
    pub hellos : List (WorkerHello P)
    pub sent : List (WorkerHeartbeat P)
    pub handled : List P.Directive

module _ (P : Coordinators) where
  open P use {Name}

  abbrev named : List (Name × Name) → List (Name × Name)
  named [] = []
  named ((key, value) ∷ more) = if P.is_empty key then named more else (key, value) ∷ named more

  abbrev contains : Name → List (Name × Name) → Bool
  contains key [] = false
  contains key ((k, v) ∷ more) = P.same k key || contains key more

  abbrev add_missing : Name → Name → List (Name × Name) → List (Name × Name)
  add_missing key value labels =
      if contains key labels then labels else labels ++ ((key, value) ∷ [])

  abbrev labels_of : CoordinatorCfg P → List (Name × Name)
  labels_of cfg =
      if P.is_empty cfg.worker_identity
      then cfg.labels
      else add_missing P.worker_identity cfg.worker_identity
          (add_missing P.identity cfg.worker_identity cfg.labels)

  unfoldable pub hello_of : CoordinatorCfg P → Name → WorkerHello P
  hello_of cfg version = record {
    hostname = cfg.hostname;
    version = version;
    capabilities = named cfg.capabilities;
    labels = labels_of cfg;
  }

  unfoldable pub session_of : WorkerSession P → SessionInfo P
  session_of reply = record {
    assigned_identity = reply.worker_id;
    session_token = reply.session_token;
    learner_target = reply.learner_target;
    heartbeat_interval_ms =
        if ltb 0 reply.heartbeat_interval_ms then reply.heartbeat_interval_ms else 2000;
  }

  abbrev pub with_hostname : CoordinatorCfg P → CoordinatorCfg P
  with_hostname cfg =
      if P.is_empty cfg.hostname then record cfg { hostname = cfg.worker_identity } else cfg

  abbrev pub first_session : CoordinatorCfg P → Name → SessionInfo P → Client P
  first_session cfg version session = record {
    config = cfg;
    version = version;
    session = session;
    stream_session = session;
    running = false;
    stop_requested = false;
    place = Place.unborn;
    writer = Writer.absent;
    writer_running = false;
    caller = Caller.outside;
    half_closes = 0;
    terminated = false;
    hellos = hello_of cfg version ∷ [];
    sent = [];
    handled = [];
  }

  -- The constructor, which throws where the coordinator refuses the registration.
  abbrev pub new_client : CoordinatorCfg P → Name → Option (WorkerSession P) → Option (Client P)
  new_client cfg version none = none
  new_client cfg version (some reply) =
      some (first_session (with_hostname cfg) version (session_of reply))

  unfoldable pub effective_identity : Client P → Name
  effective_identity c =
      if not (P.is_empty c.session.assigned_identity)
      then c.session.assigned_identity
      else if not (P.is_empty c.config.worker_identity)
      then c.config.worker_identity
      else c.config.hostname

  abbrev pub greeted : Client P → Client P
  greeted c = record c { hellos = c.hellos ++ (hello_of c.config c.version ∷ []) }
