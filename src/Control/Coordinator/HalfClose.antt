-- ===== src/Control/Coordinator/HalfClose.antt =====
-- How often a stream of apps/worker/src/coordinator_client.cpp is half-closed.
use ddrl_nav2d.Prelude.{ℕ, ◌+◌, ◌≡◌, refl, ◌∙◌, Bool, List, [], ◌∷◌, if◌then◌else◌, some, arith}
use ddrl_nav2d.Control.Coordinator.{
  Coordinators, CoordinatorCfg, WorkerSession, Place, Writer, Answer, Client, new_client,
}
use ddrl_nav2d.Control.Coordinator.Threads.{step_at, thread_step, writer_step, Event, run}
use ddrl_nav2d.Control.Coordinator.States.{pending, IsValid, run-IsValid, new_client-IsValid}

module _ (P : Coordinators) where
  -- Steps of the writer only.
  abbrev pub writer_steps : List (Bool × ℕ × P.Status) → Client P → Client P
  writer_steps [] c = c
  writer_steps ((done, unix_ms, status) ∷ ws) c =
      writer_steps ws (writer_step P done unix_ms status c)

  writer_step-pending :
      (done : Bool) (unix_ms : ℕ) (status : P.Status) (c : Client P)
      → (writer_step P done unix_ms status c).half_closes
          + pending (writer_step P done unix_ms status c).writer
        ≡ c.half_closes + pending c.writer
  unfolding writer_step
  writer_step-pending done unix_ms status c = ground arith

  writer_steps-pending :
      (ws : List (Bool × ℕ × P.Status)) (c : Client P)
      → (writer_steps ws c).half_closes + pending (writer_steps ws c).writer
        ≡ c.half_closes + pending c.writer
  writer_steps-pending [] c = refl
  writer_steps-pending ((done, unix_ms, status) ∷ ws) c =
      writer_steps-pending ws (writer_step P done unix_ms status c)
      ∙ writer_step-pending done unix_ms status c

  pending_closed :
      (c : Client P)
      → IsValid P c
      → c.place ≡ Place.closing
      → (a : Answer P)
      → (step_at P c.place a c).half_closes + pending (step_at P c.place a c).writer
        ≡ (if c.writer_running then 2 else 1)
  pending_closed c v p a = ground arith

  -- When the heartbeat thread has left the loop over `Read`, and however the writer goes on until it
  -- returns: the stream is half-closed twice exactly if the writer was seen running, else once.
  pub half_closed :
      (cfg : CoordinatorCfg P) (version : P.Name) (reply : WorkerSession P) (c : Client P)
      (es : List (Event P)) (a : Answer P) (ws : List (Bool × ℕ × P.Status))
      → new_client P cfg version (some reply) ≡ some c
      → (run P es c).place ≡ Place.closing
      → (writer_steps ws (thread_step P a (run P es c))).writer ≡ Writer.returned
      → (writer_steps ws (thread_step P a (run P es c))).half_closes
        ≡ (if (run P es c).writer_running then 2 else 1)
  unfolding thread_step
  half_closed cfg version reply c es a ws h p r =
      let d = run P es c in
      let v = run-IsValid P es c (new_client-IsValid P cfg version reply c h) in
      ground (arith, pending_closed d v p a, writer_steps-pending ws (step_at P d.place a d))
