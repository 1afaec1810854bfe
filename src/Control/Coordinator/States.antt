-- ===== src/Control/Coordinator/States.antt =====
-- What holds in every state of the client of apps/worker/src/coordinator_client.cpp, whatever the
-- schedule of its threads.
use ddrl_nav2d.Prelude.{
  ℕ, ◌+◌, ◌≡◌, refl, Bool, true, false, List, [], ◌∷◌, some, inl, inr, ◌||◌, Bool-cases, arith,
}
use ddrl_nav2d.Control.Coordinator.{
  Coordinators, CoordinatorCfg, WorkerSession, Place, Writer, Caller, Answer, Client, new_client,
}
use ddrl_nav2d.Control.Coordinator.Threads.{
  step_at, thread_step, write_at, writer_step, start_heartbeat, stop_step, Event, event_step,
  happen, run,
}

-- Whether the writer's thread exists at a place of the heartbeat thread.
abbrev pub streaming : Place → Bool
streaming Place.reading = true
streaming Place.blocked = true
streaming Place.closing = true
streaming Place.joining = true
streaming p = false

abbrev pub present : Writer → Bool
present Writer.absent = false
present w = true

abbrev at_work : Writer → Bool
at_work Writer.absent = false
at_work Writer.returned = false
at_work w = true

-- The half-closes that the writer has still to make.
abbrev pub pending : Writer → ℕ
pending Writer.testing = 1
pending Writer.writing = 1
pending Writer.resting = 1
pending Writer.half_closing = 1
pending w = 0

-- `running_`, as the place determines it.
abbrev pub runs : Place → Bool
runs Place.unborn = false
runs Place.finished = false
runs p = true

-- Where the caller can be at a place: it waits for a thread, and has joined one before the last store.
abbrev pub Calls : Place → Caller → Type 0
Calls Place.unborn Caller.waiting = true ≡ false
Calls Place.unborn k = true ≡ true
Calls p Caller.joined = true ≡ false
Calls p k = true ≡ true

module _ (P : Coordinators) where
  -- A stream was opened with the session that is current, and is half-closed once by the writer.
  abbrev pub Streams : Place → Client P → Type 0
  Streams Place.opening c = c.stream_session ≡ c.session
  Streams Place.reading c = (c.stream_session ≡ c.session) × (c.half_closes + pending c.writer ≡ 1)
  Streams Place.blocked c = (c.stream_session ≡ c.session) × (c.half_closes + pending c.writer ≡ 1)
  Streams Place.closing c = (c.stream_session ≡ c.session) × (c.half_closes + pending c.writer ≡ 1)
  Streams Place.joining c = c.stream_session ≡ c.session
  Streams p c = true ≡ true

  pub record IsValid (c : Client P) : Type 0 where
    pub written : present c.writer ≡ streaming c.place
    pub works : c.writer_running ≡ at_work c.writer
    pub alive : c.running ≡ (c.terminated || runs c.place)
    pub calls : Calls c.place c.caller
    pub streams : Streams c.place c

  step_at-IsValid :
      (p : Place) (a : Answer P) (c : Client P)
      → c.place ≡ p
      → c.terminated ≡ false
      → IsValid c
      → IsValid (step_at P p a c)
  step_at-IsValid p a c e t v = ground arith

  write_at-IsValid :
      (w : Writer) (done : Bool) (unix_ms : ℕ) (status : P.Status) (c : Client P)
      → c.writer ≡ w
      → IsValid c
      → IsValid (write_at P w done unix_ms status c)
  write_at-IsValid w done unix_ms status c e v = ground arith

  pub event_step-IsValid :
      (e : Event P) (c : Client P) → c.terminated ≡ false → IsValid c → IsValid (event_step P e c)
  unfolding thread_step writer_step start_heartbeat stop_step
  event_step-IsValid (Event.stepped a) c t v = step_at-IsValid c.place a c refl t v
  event_step-IsValid (Event.wrote done unix_ms status) c t v =
      write_at-IsValid c.writer done unix_ms status c refl v
  event_step-IsValid Event.started c t v = ground arith
  event_step-IsValid Event.stopped c t v = ground arith

  pub happen-IsValid : (e : Event P) (c : Client P) → IsValid c → IsValid (happen P e c)
  unfolding happen
  happen-IsValid e c v = elim (Bool-cases c.terminated) [
    | inl t ↦ simp t v
    | inr t ↦ simp t (event_step-IsValid e c t v)
  ]

  pub run-IsValid : (es : List (Event P)) (c : Client P) → IsValid c → IsValid (run P es c)
  run-IsValid [] c v = v
  run-IsValid (e ∷ es) c v = run-IsValid es (happen P e c) (happen-IsValid e c v)

  pub new_client-IsValid :
      (cfg : CoordinatorCfg P) (version : P.Name) (reply : WorkerSession P) (c : Client P)
      → new_client P cfg version (some reply) ≡ some c
      → IsValid c
  new_client-IsValid cfg version reply c h = ground arith
