-- ===== src/Control/Coordinator/Ends.antt =====
-- That the join in `stop` of apps/worker/src/coordinator_client.cpp ends, if the coordinator answers.
use ddrl_nav2d.Prelude.{
  ℕ, ◌+◌, ◌-◌, ◌≤◌, ◌<◌, ◌≡◌, ◌⊎◌, inl, inr, refl, ◌∙◌, Bool, true, false, List, [], ◌∷◌, ◌&&◌,
  some, length, arith,
}
use ddrl_nav2d.Control.Coordinator.{
  Coordinators, CoordinatorCfg, WorkerSession, Place, Writer, Answer, Client, new_client,
}
use ddrl_nav2d.Control.Coordinator.Threads.{step_at, thread_step, write_at, writer_step, Event, run}
use ddrl_nav2d.Control.Coordinator.States.{
  streaming, present, IsValid, event_step-IsValid, run-IsValid, new_client-IsValid,
}

-- How many rounds the writer makes at most before it has returned, once it was told to stop.
abbrev writer_rank : Writer → ℕ
writer_rank Writer.absent = 0
writer_rank Writer.returned = 0
writer_rank Writer.leaving = 1
writer_rank Writer.half_closing = 2
writer_rank Writer.testing = 3
writer_rank Writer.resting = 4
writer_rank Writer.writing = 5

-- The same for the heartbeat thread, which waits for the writer.
abbrev rank : Place → ℕ → ℕ
rank Place.unborn w = 0
rank Place.finished w = 0
rank Place.exiting w = 1
rank Place.head w = 2
rank Place.pausing w = 3
rank Place.finishing w = 4
rank Place.registering w = 4
rank Place.joining w = 5 + w
rank Place.closing w = 6 + w
rank Place.reading w = 7 + w
rank Place.blocked w = 8 + w
rank Place.opening w = 14

&&_split : (a b : Bool) → (a && b) ≡ true → (a ≡ true) × (b ≡ true)
&&_split a b h = ground arith

module _ (P : Coordinators) where
  -- The answers that end a wait for the coordinator: a directive or the end of the stream, its
  -- status, and the reply to a registration.
  abbrev answers : Place → Answer P → Bool
  answers Place.blocked (Answer.directive d) = true
  answers Place.blocked Answer.ended = true
  answers Place.blocked a = false
  answers Place.finishing (Answer.closed session_lost) = true
  answers Place.finishing a = false
  answers Place.registering (Answer.registered reply) = true
  answers Place.registering Answer.refused = true
  answers Place.registering a = false
  answers p a = true

  -- A step of the heartbeat thread, and one of its writer.
  pub record Round : Type 0 where
    pub answer : Answer P
    pub done : Bool
    pub unix_ms : ℕ
    pub status : P.Status

module _ (P : Coordinators) where
  abbrev pub round : Round P → Client P → Client P
  round r c = writer_step P r.done r.unix_ms r.status (thread_step P r.answer c)

  abbrev pub rounds : List (Round P) → Client P → Client P
  rounds [] c = c
  rounds (r ∷ rs) c = rounds rs (round r c)

  -- The coordinator answers whenever the heartbeat thread waits for it.
  abbrev pub answered : List (Round P) → Client P → Bool
  answered [] c = true
  answered (r ∷ rs) c = answers P c.place r.answer && answered rs (round r c)

  abbrev left : Client P → ℕ
  left c = rank c.place (writer_rank c.writer)

  -- A step of the heartbeat thread brings the end nearer, or waits for the writer.
  Nearer : Client P → Client P → Type 0
  Nearer c d =
      (d.stop_requested ≡ true)
      × ((left d ≤ left c - 1)
          ⊎ ((d.place ≡ Place.joining) × (left d ≤ left c) × (0 < writer_rank d.writer)))

  step_at-Nearer :
      (p : Place) (a : Answer P) (c : Client P)
      → c.place ≡ p
      → c.stop_requested ≡ true
      → present c.writer ≡ streaming p
      → answers P p a ≡ true
      → Nearer c (step_at P p a c)
  unfolding Nearer
  step_at-Nearer p a c e s v h = ground arith

  writer_rank-write_at :
      (w : Writer) (done : Bool) (unix_ms : ℕ) (status : P.Status) (c : Client P)
      → c.writer ≡ w
      → c.stop_requested ≡ true
      → (writer_rank (write_at P w done unix_ms status c).writer ≤ writer_rank w - 1)
        × ((write_at P w done unix_ms status c).place ≡ c.place)
        × ((write_at P w done unix_ms status c).stop_requested ≡ true)
  writer_rank-write_at w done unix_ms status c e s = ground arith

  rank_mono : (p : Place) (v w : ℕ) → v ≤ w → rank p v ≤ rank p w
  rank_mono p v w h = ground arith

  left_trans :
      (c d e : Client P)
      → Nearer c d
      → writer_rank e.writer ≤ writer_rank d.writer - 1
      → e.place ≡ d.place
      → left e ≤ left c - 1
  unfolding Nearer
  left_trans c d e (s, inl near) w p =
      rw p (omega (arith, rank_mono d.place (writer_rank e.writer) (writer_rank d.writer)))
  left_trans c d e (s, inr (at, near, busy)) w p = ground arith

  round-left :
      (r : Round P) (c : Client P)
      → c.stop_requested ≡ true
      → present c.writer ≡ streaming c.place
      → answers P c.place r.answer ≡ true
      → ((round r c).stop_requested ≡ true) × (left (round r c) ≤ left c - 1)
  unfolding thread_step writer_step Nearer
  round-left r c s v h =
      let d = step_at P c.place r.answer c in
      let near = step_at-Nearer c.place r.answer c refl s v h in
      let wrote = writer_rank-write_at d.writer r.done r.unix_ms r.status d refl near.0 in
      (wrote.2, left_trans c d (round r c) near wrote.0 wrote.1)

  step_at-terminated :
      (p : Place) (a : Answer P) (c : Client P) → (step_at P p a c).terminated ≡ c.terminated
  step_at-terminated p a c = ground arith

  write_at-terminated :
      (w : Writer) (done : Bool) (unix_ms : ℕ) (status : P.Status) (c : Client P)
      → (write_at P w done unix_ms status c).terminated ≡ c.terminated
  write_at-terminated w done unix_ms status c = ground arith

  -- The two events of a round, on a client that is not terminated.
  round-IsValid :
      (r : Round P) (c : Client P)
      → c.terminated ≡ false
      → IsValid P c
      → ((round r c).terminated ≡ false) × IsValid P (round r c)
  unfolding thread_step writer_step
  round-IsValid r c t v =
      let d = step_at P c.place r.answer c in
      let t' = step_at-terminated c.place r.answer c ∙ t in
      let v' = event_step-IsValid P (Event.stepped r.answer) c t v in
      (
        write_at-terminated d.writer r.done r.unix_ms r.status d ∙ t',
        event_step-IsValid P (Event.wrote r.done r.unix_ms r.status) d t' v',
      )

  left-rounds :
      (rs : List (Round P)) (c : Client P)
      → c.stop_requested ≡ true
      → c.terminated ≡ false
      → IsValid P c
      → answered rs c ≡ true
      → left c ≤ length rs
      → left (rounds rs c) ≡ 0
  left-rounds [] c s t v h n = omega arith
  left-rounds (r ∷ rs) c s t v h n =
      let (a, more) = &&_split (answers P c.place r.answer) (answered rs (round r c)) h in
      let (s', n') = round-left r c s v.written a in
      let (t', v') = round-IsValid r c t v in left-rounds rs (round r c) s' t' v' more (omega arith)

  left-le : (p : Place) (w : Writer) → rank p (writer_rank w) ≤ 14
  left-le p w = ground arith

  finished_of_rank : (p : Place) (w : ℕ) → rank p w ≡ 0 → (p ≡ Place.unborn) ⊎ (p ≡ Place.finished)
  finished_of_rank p w h = ground arith

  -- Whatever happened before on a client that was not terminated, when `stop` has set its flag: after
  -- 14 rounds of the heartbeat thread and its writer, in which the coordinator answers whenever it is
  -- waited for, the heartbeat thread has finished, if it was started, so that the join of `stop`
  -- returns.
  pub heartbeat_ends :
      (cfg : CoordinatorCfg P) (version : P.Name) (reply : WorkerSession P) (c : Client P)
      (es : List (Event P)) (rs : List (Round P))
      → new_client P cfg version (some reply) ≡ some c
      → (run P es c).stop_requested ≡ true
      → (run P es c).terminated ≡ false
      → 14 ≤ length rs
      → answered rs (run P es c) ≡ true
      → ((rounds rs (run P es c)).place ≡ Place.unborn)
        ⊎ ((rounds rs (run P es c)).place ≡ Place.finished)
  heartbeat_ends cfg version reply c es rs h s t n a =
      let d = run P es c in
      let v = run-IsValid P es c (new_client-IsValid P cfg version reply c h) in
      let e = rounds rs d in
      let none_left = left-rounds rs d s t v a (omega (arith, left-le d.place d.writer)) in
      finished_of_rank e.place (writer_rank e.writer) none_left
