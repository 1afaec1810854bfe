-- ===== src/Control/Coordinator/Threads.antt =====
-- The threads of apps/worker/src/coordinator_client.cpp: the heartbeat thread with its writer, and the
-- calls of the worker's thread, as interleaved steps. A step goes from one access to what the threads
-- share to the next; what gRPC answers in a step is its input.
use ddrl_nav2d.Prelude.{ℕ, ◌+◌, Bool, true, false, not, ◌&&◌, if◌then◌else◌, List, [], ◌∷◌, ◌++◌}
use ddrl_nav2d.Control.Coordinator.{
  Coordinators, WorkerHeartbeat, SessionInfo, Place, Writer, Caller, Answer, Client, session_of,
  greeted,
}

module _ (P : Coordinators) where
  abbrev open_step : Answer P → Client P → Client P
  open_step Answer.opened c = record c {
    place = Place.reading;
    writer = Writer.testing;
    writer_running = true;
    half_closes = 0;
  }
  open_step a c = record c { place = Place.pausing }

  abbrev read_step : Answer P → Client P → Client P
  read_step (Answer.directive d) c = record c {
    place = Place.reading;
    handled = c.handled ++ (d ∷ []);
  }
  read_step Answer.ended c = record c { place = Place.closing }
  read_step a c = c

  abbrev join_step : Writer → Client P → Client P
  join_step Writer.returned c = record c { writer = Writer.absent; place = Place.finishing }
  join_step w c = c

  abbrev finish_step : Answer P → Client P → Client P
  finish_step (Answer.closed session_lost) c = record c {
    place = if not c.stop_requested && session_lost then Place.registering else Place.pausing;
  }
  finish_step a c = c

  abbrev register_step : Answer P → Client P → Client P
  register_step (Answer.registered reply) c = record (greeted P c) {
    session = session_of P reply;
    place = Place.head;
  }
  register_step Answer.refused c = record (greeted P c) { place = Place.pausing }
  register_step a c = c

  abbrev pub step_at : Place → Answer P → Client P → Client P
  step_at Place.unborn a c = c
  step_at Place.head a c =
      if c.stop_requested
      then record c { place = Place.exiting }
      else record c { place = Place.opening; stream_session = c.session }
  step_at Place.opening a c = open_step a c
  step_at Place.reading a c = record c {
    place = if c.stop_requested then Place.closing else Place.blocked;
  }
  step_at Place.blocked a c = read_step a c
  step_at Place.closing a c = record c {
    place = Place.joining;
    half_closes = if c.writer_running then c.half_closes + 1 else c.half_closes;
  }
  step_at Place.joining a c = join_step c.writer c
  step_at Place.finishing a c = finish_step a c
  step_at Place.registering a c = register_step a c
  step_at Place.pausing a c = record c { place = Place.head }
  step_at Place.exiting a c = record c { place = Place.finished; running = false }
  step_at Place.finished a c = c

  -- One step of `heartbeat_loop`.
  unfoldable pub thread_step : Answer P → Client P → Client P
  thread_step a c = step_at c.place a c

  abbrev pub heartbeat : SessionInfo P → ℕ → P.Status → WorkerHeartbeat P
  heartbeat session unix_ms status = record {
    worker_id = session.assigned_identity;
    session_token = session.session_token;
    unix_ms = unix_ms;
    status = status;
  }

  -- A step of the writer: the time, the status and whether `Write` succeeds are its inputs.
  abbrev pub write_at : Writer → Bool → ℕ → P.Status → Client P → Client P
  write_at Writer.absent done unix_ms status c = c
  write_at Writer.testing done unix_ms status c = record c {
    writer = if c.stop_requested then Writer.half_closing else Writer.writing;
  }
  write_at Writer.writing done unix_ms status c =
      if done
      then record c {
        writer = Writer.resting;
        sent = c.sent ++ (heartbeat c.stream_session unix_ms status ∷ []);
      }
      else record c { writer = Writer.half_closing }
  write_at Writer.resting done unix_ms status c = record c { writer = Writer.testing }
  write_at Writer.half_closing done unix_ms status c = record c {
    writer = Writer.leaving;
    half_closes = c.half_closes + 1;
  }
  write_at Writer.leaving done unix_ms status c = record c {
    writer = Writer.returned;
    writer_running = false;
  }
  write_at Writer.returned done unix_ms status c = c

  unfoldable pub writer_step : Bool → ℕ → P.Status → Client P → Client P
  writer_step done unix_ms status c = write_at c.writer done unix_ms status c

  -- A new thread is assigned to `heartbeat_thread_`, which terminates the program where that is
  -- joinable.
  abbrev launch : Place → Client P → Client P
  launch Place.unborn c = record c { place = Place.head }
  launch p c = record c { terminated = true }

  abbrev start_at : Caller → Client P → Client P
  start_at Caller.outside c =
      if c.running then c else launch c.place (record c { running = true; stop_requested = false })
  start_at k c = c

  -- `start_heartbeat`, which only the worker's thread calls.
  unfoldable pub start_heartbeat : Client P → Client P
  start_heartbeat c = start_at c.caller c

  abbrev join_at : Place → Client P → Client P
  join_at Place.unborn c = record c { caller = Caller.joined }
  join_at Place.finished c = record c { caller = Caller.joined; place = Place.unborn }
  join_at p c = c

  -- The steps of `stop`: the flag, the test of `running_`, the join, and the last store.
  abbrev stop_at : Caller → Client P → Client P
  stop_at Caller.outside c = record c { stop_requested = true; caller = Caller.flagged }
  stop_at Caller.flagged c = record c {
    caller = if c.running then Caller.waiting else Caller.outside;
  }
  stop_at Caller.waiting c = join_at c.place c
  stop_at Caller.joined c = record c { running = false; caller = Caller.outside }

  unfoldable pub stop_step : Client P → Client P
  stop_step c = stop_at c.caller c

  abbrev destroy_at : Place → Client P → Client P
  destroy_at Place.unborn c = c
  destroy_at p c = record c { terminated = true }

  -- The end of the destructor, after its call of `stop`: a joinable thread object terminates the
  -- program.
  unfoldable pub destroy : Client P → Client P
  destroy c = destroy_at c.place c

module _ (P : Coordinators) where
  pub data Event : Type 0 where
    stepped : Answer P → Event
    wrote : Bool → ℕ → P.Status → Event
    started : Event
    stopped : Event

module _ (P : Coordinators) where
  abbrev pub event_step : Event P → Client P → Client P
  event_step (Event.stepped a) c = thread_step P a c
  event_step (Event.wrote done unix_ms status) c = writer_step P done unix_ms status c
  event_step Event.started c = start_heartbeat P c
  event_step Event.stopped c = stop_step P c

  -- Nothing happens after `std::terminate`.
  unfoldable pub happen : Event P → Client P → Client P
  happen e c = if c.terminated then c else event_step e c

  abbrev pub run : List (Event P) → Client P → Client P
  run [] c = c
  run (e ∷ es) c = run es (happen e c)
