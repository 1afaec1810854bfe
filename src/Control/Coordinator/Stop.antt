-- ===== src/Control/Coordinator/Stop.antt =====
-- `stop` of apps/worker/src/coordinator_client.cpp: what is left of the threads when it has returned,
-- and the race in which it does not join.
use ddrl_nav2d.Prelude.{
  ℕ, ◌≡◌, ◌≢◌, refl, ap, ◌∙◌, Bool, true, false, ◌&&◌, List, [], ◌∷◌, some, All, if-both, arith,
}
use ddrl_nav2d.Control.Coordinator.{
  Coordinators, CoordinatorCfg, WorkerSession, Place, Writer, Caller, Answer, Client, new_client,
}
use ddrl_nav2d.Control.Coordinator.Threads.{
  step_at, thread_step, write_at, writer_step, event_step, stop_step, destroy, Event, happen, run,
}
use ddrl_nav2d.Control.Coordinator.States.{
  streaming, present, IsValid, happen-IsValid, run-IsValid, new_client-IsValid,
}

-- Whether the heartbeat thread makes no step any more.
abbrev still : Place → Bool
still Place.unborn = true
still Place.finished = true
still p = false

abbrev pub is_finished : Place → Bool
is_finished Place.finished = true
is_finished p = false

abbrev pub is_flagged : Caller → Bool
is_flagged Caller.flagged = true
is_flagged k = false

module _ (P : Coordinators) where
  -- A step of the heartbeat thread or of its writer.
  abbrev pub is_turn : Event P → Bool
  is_turn (Event.stepped a) = true
  is_turn (Event.wrote done unix_ms status) = true
  is_turn e = false

  step_at-still : (p : Place) (a : Answer P) (c : Client P) → still p ≡ true → step_at P p a c ≡ c
  step_at-still Place.unborn a c h = refl
  step_at-still Place.finished a c h = refl
  step_at-still p a c h = cc

  write_at-still :
      (w : Writer) (done : Bool) (unix_ms : ℕ) (status : P.Status) (c : Client P)
      → present w ≡ false
      → write_at P w done unix_ms status c ≡ c
  write_at-still Writer.absent done unix_ms status c h = refl
  write_at-still w done unix_ms status c h = cc

  absent_of_still :
      (p : Place) (w : Writer) → still p ≡ true → present w ≡ streaming p → present w ≡ false
  absent_of_still p w h e = ground arith

  event_step-still :
      (e : Event P) (c : Client P)
      → is_turn e ≡ true
      → still c.place ≡ true
      → IsValid P c
      → event_step P e c ≡ c
  unfolding thread_step writer_step
  event_step-still (Event.stepped a) c h s v = step_at-still c.place a c s
  event_step-still (Event.wrote done unix_ms status) c h s v =
      write_at-still c.writer done unix_ms status c (absent_of_still c.place c.writer s v.written)
  event_step-still Event.started c h s v = cc
  event_step-still Event.stopped c h s v = cc

  happen-still :
      (e : Event P) (c : Client P)
      → is_turn e ≡ true
      → still c.place ≡ true
      → IsValid P c
      → happen P e c ≡ c
  unfolding happen
  happen-still e c h s v = if-both (λ d. d ≡ c) c.terminated refl (event_step-still e c h s v)

  run-still :
      (es : List (Event P)) (c : Client P)
      → All (λ e. is_turn e ≡ true) es
      → still c.place ≡ true
      → IsValid P c
      → run P es c ≡ c
  run-still [] c h s v = refl
  run-still (e ∷ es) c h s v = ap (run P es) (happen-still e c h.0 s v) ∙ run-still es c h.1 s v

  -- `stop` returns with a step from its test, or with its last one.
  stopped-still :
      (c : Client P)
      → IsValid P c
      → c.caller ≢ Caller.outside
      → (happen P Event.stopped c).caller ≡ Caller.outside
      → still (happen P Event.stopped c).place ≡ true
  unfolding happen stop_step
  stopped-still c v h r = ground arith

  -- Whatever the schedule of the threads and the answers of the coordinator: when a call of `stop`
  -- returns, no step of the heartbeat thread or its writer changes anything any more, so that nothing
  -- is sent and no directive is handled.
  pub stop_quiet :
      (cfg : CoordinatorCfg P) (version : P.Name) (reply : WorkerSession P) (c : Client P)
      (es later : List (Event P))
      → new_client P cfg version (some reply) ≡ some c
      → (run P es c).caller ≢ Caller.outside
      → (happen P Event.stopped (run P es c)).caller ≡ Caller.outside
      → All (λ e. is_turn e ≡ true) later
      → run P later (happen P Event.stopped (run P es c)) ≡ happen P Event.stopped (run P es c)
  stop_quiet cfg version reply c es later h k r turns =
      let v = run-IsValid P es c (new_client-IsValid P cfg version reply c h) in
      run-still later (happen P Event.stopped (run P es c)) turns (stopped-still (run P es c) v k r)
        (happen-IsValid P Event.stopped (run P es c) v)

  destroyed :
      (c : Client P)
      → IsValid P c
      → c.caller ≢ Caller.outside
      → (happen P Event.stopped c).caller ≡ Caller.outside
      → c.terminated ≡ false
      → (destroy P (happen P Event.stopped c)).terminated
        ≡ (is_flagged c.caller && is_finished c.place)
  unfolding happen stop_step destroy
  destroyed c v k r t = ground arith

  -- The race: when a call of `stop` on a client that was not terminated returns, the destructor
  -- terminates the program exactly if `stop` returned from its test of `running_` and the heartbeat
  -- thread had finished by then, so that nobody has joined it.
  pub stop_race :
      (cfg : CoordinatorCfg P) (version : P.Name) (reply : WorkerSession P) (c : Client P)
      (es : List (Event P))
      → new_client P cfg version (some reply) ≡ some c
      → (run P es c).caller ≢ Caller.outside
      → (happen P Event.stopped (run P es c)).caller ≡ Caller.outside
      → (run P es c).terminated ≡ false
      → (destroy P (happen P Event.stopped (run P es c))).terminated
        ≡ (is_flagged (run P es c).caller && is_finished (run P es c).place)
  stop_race cfg version reply c es h k r t =
      destroyed (run P es c) (run-IsValid P es c (new_client-IsValid P cfg version reply c h)) k r t
