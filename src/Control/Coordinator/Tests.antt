-- ===== src/Control/Coordinator/Tests.antt =====
-- Runs of the client in apps/worker/src/coordinator_client.cpp, and its theorems at these runs.
use ddrl_nav2d.Prelude.{
  ℕ, ◌≡◌, ◌⊎◌, refl, Bool, true, false, ◌&&◌, List, [], ◌∷◌, ◌++◌, map, if◌then◌else◌, ◌==◌, arith,
}
use ddrl_nav2d.Control.Coordinator.{
  Coordinators, CoordinatorCfg, WorkerSession, Place, Answer, Client, first_session, with_hostname,
  hello_of, session_of, effective_identity,
}
use ddrl_nav2d.Control.Coordinator.Threads.{
  thread_step, writer_step, start_heartbeat, stop_step, destroy, Event, happen, run,
}
use ddrl_nav2d.Control.Coordinator.Session.{stamp, current_credentials, heartbeats_carry}
use ddrl_nav2d.Control.Coordinator.HalfClose.{writer_steps, half_closed}
use ddrl_nav2d.Control.Coordinator.Stop.{is_flagged, is_finished, stop_quiet, stop_race}
use ddrl_nav2d.Control.Coordinator.Ends.{Round, rounds, heartbeat_ends}

-- Strings, directives and statuses are numbers, and 0 is the empty string.
abbrev numbered : Coordinators
numbered = record {
  Name = ℕ;
  is_empty = λ n. n == 0;
  same = λ m n. m == n;
  identity = 100;
  worker_identity = 101;
  Directive = ℕ;
  Status = ℕ;
}

abbrev cfg : CoordinatorCfg numbered
cfg = record {
  worker_identity = 7;
  hostname = 0;
  capabilities = (0, 1) ∷ (2, 3) ∷ [];
  labels = (101, 9) ∷ [];
}

abbrev reply : ℕ → WorkerSession numbered
reply token = record {
  worker_id = 5;
  session_token = token;
  learner_target = 6;
  heartbeat_interval_ms = 0;
}

abbrev turn : Answer numbered → Event numbered
turn a = Event.stepped a

abbrev write : Bool → Event numbered
write done = Event.wrote done 1 2

abbrev idle : Event numbered
idle = turn Answer.nothing

-- The client that the constructor makes where the coordinator gives the token 40.
abbrev client : Client numbered
client = first_session numbered (with_hostname numbered cfg) 1 (session_of numbered (reply 40))

-- A heartbeat is sent, and the coordinator ends the stream.
abbrev streamed : List (Event numbered)
streamed =
    Event.started
    ∷ idle
    ∷ turn Answer.opened
    ∷ write true
    ∷ write true
    ∷ idle
    ∷ turn Answer.ended
    ∷ []

-- The stream is closed as unauthenticated, the worker registers again and sends a heartbeat.
abbrev registered_again : List (Event numbered)
registered_again =
    idle
    ∷ write true
    ∷ write false
    ∷ write false
    ∷ write true
    ∷ write true
    ∷ idle
    ∷ turn (Answer.closed true)
    ∷ turn (Answer.registered (reply 41))
    ∷ idle
    ∷ turn Answer.opened
    ∷ write true
    ∷ write true
    ∷ []

tokens :
    map (stamp numbered) (run numbered (streamed ++ registered_again) client).sent
    ≡ (5, 40) ∷ (5, 41) ∷ []
unfolding happen thread_step writer_step start_heartbeat session_of
tokens = refl

labels : map (λ h. h.labels) client.hellos ≡ ((101, 9) ∷ (100, 7) ∷ []) ∷ []
unfolding hello_of
labels = refl

identity : effective_identity numbered client ≡ 5
unfolding effective_identity session_of
identity = refl

heartbeats_carry_example :
    map (stamp numbered) (run numbered (streamed ++ registered_again) client).sent
    ≡ current_credentials numbered (streamed ++ registered_again) client
heartbeats_carry_example =
    heartbeats_carry numbered cfg 1 (reply 40) client (streamed ++ registered_again) refl

abbrev closing_writes : List (Bool × ℕ × ℕ)
closing_writes = (true, 1, 2) ∷ (true, 1, 2) ∷ (false, 1, 2) ∷ (true, 1, 2) ∷ (true, 1, 2) ∷ []

half_closed_example :
    (writer_steps numbered closing_writes
      (thread_step numbered Answer.nothing (run numbered streamed client))).half_closes
    ≡ (if (run numbered streamed client).writer_running then 2 else 1)
unfolding happen thread_step writer_step start_heartbeat
half_closed_example =
    half_closed numbered cfg 1 (reply 40) client streamed Answer.nothing closing_writes refl refl
      refl

-- `stop` sets its flag, and the thread finishes before its test.
abbrev raced : List (Event numbered)
raced = Event.started ∷ Event.stopped ∷ idle ∷ idle ∷ []

stop_quiet_example :
    run numbered
      (idle ∷ write true ∷ [])
      (happen numbered Event.stopped (run numbered raced client))
    ≡ happen numbered Event.stopped (run numbered raced client)
unfolding happen thread_step writer_step start_heartbeat stop_step
stop_quiet_example =
    stop_quiet numbered cfg 1 (reply 40) client raced (idle ∷ write true ∷ []) refl (cc) refl
      (refl, (refl, tt))

stop_race_example :
    (destroy numbered (happen numbered Event.stopped (run numbered raced client))).terminated ≡ (
      is_flagged (run numbered raced client).caller
      && is_finished (run numbered raced client).place)
unfolding happen thread_step writer_step start_heartbeat stop_step
stop_race_example = stop_race numbered cfg 1 (reply 40) client raced refl (cc) refl refl

-- `stop` sets its flag while `Read` waits; the coordinator ends the stream.
abbrev waits : List (Event numbered)
waits = Event.started ∷ idle ∷ turn Answer.opened ∷ write true ∷ idle ∷ Event.stopped ∷ []

abbrev reply_with : Answer numbered → Round numbered
reply_with a = record { answer = a; done = true; unix_ms = 1; status = 2 }

abbrev silent : Round numbered
silent = reply_with Answer.nothing

abbrev ending : List (Round numbered)
ending =
    reply_with Answer.ended
    ∷ silent
    ∷ silent
    ∷ silent
    ∷ silent
    ∷ silent
    ∷ reply_with (Answer.closed false)
    ∷ silent
    ∷ silent
    ∷ silent
    ∷ silent
    ∷ silent
    ∷ silent
    ∷ silent
    ∷ []

heartbeat_ends_example :
    ((rounds numbered ending (run numbered waits client)).place ≡ Place.unborn)
    ⊎ ((rounds numbered ending (run numbered waits client)).place ≡ Place.finished)
unfolding happen thread_step writer_step start_heartbeat stop_step
heartbeat_ends_example =
    heartbeat_ends numbered cfg 1 (reply 40) client waits ending refl refl refl (omega arith) refl
