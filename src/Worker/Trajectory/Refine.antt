-- ===== src/Worker/Trajectory/Refine.antt =====
-- The trajectory buffer behaves as its specification, whatever the move of a pending step leaves
-- behind in `pending_step_`.
use ddrl_nav2d.Prelude.{ℕ, ◌≡◌, refl, Bool, true, false, Option, none, some, List, [], ◌∷◌, arith}
use ddrl_nav2d.Worker.Trajectory.{
  Payload, TrajectoryStep, TrajectoryBuffer, new_buffer, push_step, set_pending_step,
  complete_pending_step, is_full, empty, extract, set_initial_recurrent_state,
  extract_initial_recurrent_state, clear,
}
use ddrl_nav2d.Worker.Trajectory.Spec.{
  Call, push, set_pending, complete, take_steps, set_initial, take_initial, reset, ask_full,
  ask_empty, ask_pending, Reply, done, logic_error, step, steps, initial, answer, View, spec_call,
  spec_run,
}

module _ (P : Payload) where
  abbrev pub waiting_of : Bool → TrajectoryStep P → Option (TrajectoryStep P)
  waiting_of false s = none
  waiting_of true s = some s

  abbrev pub view : TrajectoryBuffer P → View P
  view b = record {
    completed = b.buffer;
    waiting = waiting_of b.has_pending b.pending_step;
    initial_state = b.initial_recurrent_state;
  }

module _ (P : Payload) (moved : TrajectoryStep P → TrajectoryStep P) where
  abbrev completed_reply :
      TrajectoryBuffer P
      → Option (TrajectoryStep P × TrajectoryBuffer P)
      → Reply P × TrajectoryBuffer P
  completed_reply b none = (logic_error, b)
  completed_reply b (some (s, b')) = (step s, b')

  -- A client's call of the class, with what it returns or throws.
  pub call : TrajectoryBuffer P → Call P → Reply P × TrajectoryBuffer P
  call b (push s) = (done, push_step P b s)
  call b (set_pending s f a l) = (done, set_pending_step P b s f a l)
  call b (complete r t terms) = completed_reply b (complete_pending_step P moved b r t terms)
  call b take_steps = let (out, b') = extract P b in (steps out, b')
  call b (set_initial s) = (done, set_initial_recurrent_state P b s)
  call b take_initial = let (out, b') = extract_initial_recurrent_state P b in (initial out, b')
  call b reset = (done, clear P b)
  call b ask_full = (answer (is_full P b), b)
  call b ask_empty = (answer (empty P b), b)
  call b ask_pending = (answer b.has_pending, b)

  pub run : TrajectoryBuffer P → List (Call P) → List (Reply P)
  run b [] = []
  run b (c ∷ cs) = let (r, b') = call b c in r ∷ run b' cs

  -- Each call replies as the specification does, on the view of the buffer, and leaves its view.
  call_refines :
      (b : TrajectoryBuffer P) (c : Call P)
      → let (r, b') = call b c in
        ((r, view P b') ≡ spec_call P b.unroll_length (view P b) c)
        × (b'.unroll_length ≡ b.unroll_length)
  unfolding call push_step set_pending_step complete_pending_step extract
      set_initial_recurrent_state extract_initial_recurrent_state clear is_full empty spec_call
  call_refines b (push s) = (refl, refl)
  call_refines b (set_pending s f a l) = (refl, refl)
  call_refines b (complete r t terms) = ground arith
  call_refines b take_steps = (refl, refl)
  call_refines b (set_initial s) = ground arith
  call_refines b take_initial = (refl, refl)
  call_refines b reset = (refl, refl)
  call_refines b ask_full = (refl, refl)
  call_refines b ask_empty = ground arith
  call_refines b ask_pending = ground arith

  run_from :
      (b : TrajectoryBuffer P) (cs : List (Call P))
      → run b cs ≡ spec_run P b.unroll_length (view P b) cs
  unfolding run spec_run
  run_from b [] = refl
  run_from b (c ∷ cs) = let (e, u) = call_refines b c in rw (run_from (call b c).1 cs, u, ← e)

  -- No sequence of calls, on a buffer just constructed, tells the buffer from its specification:
  -- the replies agree one by one, the exception of a completion with nothing pending included.
  pub run_refines :
      (unroll : ℕ) (cs : List (Call P))
      → run (new_buffer P unroll) cs
        ≡ spec_run P unroll (record { completed = []; waiting = none; initial_state = none }) cs
  run_refines unroll cs = run_from (new_buffer P unroll) cs
