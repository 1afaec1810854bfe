-- ===== src/Control/Coordinator/Session.antt =====
-- The session that the heartbeats of apps/worker/src/coordinator_client.cpp carry.
use mathlib.Core.List.{map-append}
use ddrl_nav2d.Prelude.{
  ℕ, ◌≡◌, refl, sym, ap, ◌∙◌, append-nil, append_assoc, map, not, ◌&&◌, Bool, true, false, List, [],
  ◌∷◌, ◌++◌, if◌then◌else◌, some, inl, inr, Bool-cases, arith,
}
use ddrl_nav2d.Control.Coordinator.{
  Coordinators, CoordinatorCfg, WorkerSession, WorkerHeartbeat, SessionInfo, Place, Writer, Answer,
  Client, new_client,
}
use ddrl_nav2d.Control.Coordinator.Threads.{
  step_at, thread_step, heartbeat, write_at, writer_step, start_heartbeat, stop_step, Event,
  event_step, happen, run,
}
use ddrl_nav2d.Control.Coordinator.States.{
  streaming, present, Streams, IsValid, happen-IsValid, new_client-IsValid,
}

module _ (P : Coordinators) where
  -- The two names by which a session is told from another.
  abbrev credentials : SessionInfo P → P.Name × P.Name
  credentials session = (session.assigned_identity, session.session_token)

  abbrev pub stamp : WorkerHeartbeat P → P.Name × P.Name
  stamp h = (h.worker_id, h.session_token)

  abbrev write_at_of : Writer → Bool → Bool
  write_at_of Writer.writing done = done
  write_at_of w done = false

  abbrev write_of : Event P → Writer → Bool
  write_of (Event.wrote done unix_ms status) w = write_at_of w done
  write_of e w = false

  -- Whether the event is a `Write` that succeeds.
  abbrev writes : Event P → Client P → Bool
  writes e c = not c.terminated && write_of e c.writer

  -- The credentials of the session that is current at each successful `Write` of a schedule.
  abbrev pub current_credentials : List (Event P) → Client P → List (P.Name × P.Name)
  current_credentials [] c = []
  current_credentials (e ∷ es) c =
      (if writes e c then credentials c.session ∷ [] else [])
      ++ current_credentials es (happen P e c)

  stream_session-eq :
      (p : Place) (c : Client P)
      → c.place ≡ p
      → streaming p ≡ true
      → Streams P p c
      → c.stream_session ≡ c.session
  stream_session-eq Place.reading c e h s = s.0
  stream_session-eq Place.blocked c e h s = s.0
  stream_session-eq Place.closing c e h s = s.0
  stream_session-eq Place.joining c e h s = s
  stream_session-eq p c e h s = ground arith

  step_at-sent : (p : Place) (a : Answer P) (c : Client P) → (step_at P p a c).sent ≡ c.sent
  step_at-sent p a c = ground arith

  -- What an event adds to the credentials that were sent.
  Stamps : Bool → Client P → Client P → Type 0
  Stamps written c d =
      map stamp d.sent ≡ map stamp c.sent ++ (if written then credentials c.session ∷ [] else [])

  Stamps-kept : (c d : Client P) → d.sent ≡ c.sent → Stamps false c d
  unfolding Stamps
  Stamps-kept c d h = ap (map stamp) h ∙ sym (append-nil (map stamp c.sent))

  Stamps-written :
      (c d : Client P) (unix_ms : ℕ) (status : P.Status)
      → c.stream_session ≡ c.session
      → d.sent ≡ c.sent ++ (heartbeat P c.stream_session unix_ms status ∷ [])
      → Stamps true c d
  unfolding Stamps
  Stamps-written c d unix_ms status h e =
      ap (map stamp) e
      ∙ map-append stamp c.sent (heartbeat P c.stream_session unix_ms status ∷ [])
      ∙ ap (λ session. map stamp c.sent ++ (credentials session ∷ [])) h

  Stamps-write_at :
      (w : Writer) (done : Bool) (unix_ms : ℕ) (status : P.Status) (c : Client P)
      → (present w ≡ true → c.stream_session ≡ c.session)
      → Stamps (write_at_of w done) c (write_at P w done unix_ms status c)
  Stamps-write_at Writer.writing true unix_ms status c h =
      Stamps-written c _ unix_ms status (h refl) refl
  Stamps-write_at Writer.writing false unix_ms status c h = Stamps-kept c _ refl
  Stamps-write_at w done unix_ms status c h = Stamps-kept c _ refl

  Stamps-event_step :
      (e : Event P) (c : Client P) → IsValid P c → Stamps (write_of e c.writer) c (event_step P e c)
  unfolding thread_step writer_step start_heartbeat stop_step
  Stamps-event_step (Event.stepped a) c v = Stamps-kept c _ (step_at-sent c.place a c)
  Stamps-event_step (Event.wrote done unix_ms status) c v =
      Stamps-write_at c.writer done unix_ms status c
        (λ h. stream_session-eq c.place c refl (sym v.written ∙ h) v.streams)
  Stamps-event_step Event.started c v = Stamps-kept c _ (ground arith)
  Stamps-event_step Event.stopped c v = Stamps-kept c _ (ground arith)

  Stamps-happen : (e : Event P) (c : Client P) → IsValid P c → Stamps (writes e c) c (happen P e c)
  unfolding happen
  Stamps-happen e c v = elim (Bool-cases c.terminated) [
    | inl t ↦ simp t (Stamps-kept c c refl)
    | inr t ↦ simp t (Stamps-event_step e c v)
  ]

  stamps-run :
      (es : List (Event P)) (c : Client P)
      → IsValid P c
      → map stamp (run P es c).sent ≡ map stamp c.sent ++ current_credentials es c
  unfolding Stamps
  stamps-run [] c v = sym (append-nil _)
  stamps-run (e ∷ es) c v =
      stamps-run es (happen P e c) (happen-IsValid P e c v)
      ∙ ap (λ xs. xs ++ current_credentials es (happen P e c)) (Stamps-happen e c v)
      ∙ append_assoc (map stamp c.sent) (if writes e c then credentials c.session ∷ [] else [])
          (current_credentials es (happen P e c))

  new_client-sent :
      (cfg : CoordinatorCfg P) (version : P.Name) (reply : WorkerSession P) (c : Client P)
      → new_client P cfg version (some reply) ≡ some c
      → c.sent ≡ []
  new_client-sent cfg version reply c h = ground arith

  -- Whatever the schedule of the threads and the answers of the coordinator: every heartbeat carries
  -- the identity and the token of the session that is current when it is sent, also after the worker
  -- has registered again.
  pub heartbeats_carry :
      (cfg : CoordinatorCfg P) (version : P.Name) (reply : WorkerSession P) (c : Client P)
      (es : List (Event P))
      → new_client P cfg version (some reply) ≡ some c
      → map stamp (run P es c).sent ≡ current_credentials es c
  heartbeats_carry cfg version reply c es h =
      stamps-run es c (new_client-IsValid P cfg version reply c h)
      ∙ ap (λ sent. map stamp sent ++ current_credentials es c)
          (new_client-sent cfg version reply c h)
