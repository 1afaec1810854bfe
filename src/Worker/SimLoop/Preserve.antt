-- ===== src/Worker/SimLoop/Preserve.antt =====
-- Every poll of a simulator thread keeps the invariant.
use ddrl_nav2d.Prelude.{
  ℕ, zero, suc, ◌≤◌, ◌<◌, max, ◌≡◌, refl, ap, subst, Bool, true, false, Option, none, some, [], ◌∷◌,
  ◌++◌, length, length-append, All, arith, lt→ltb, if◌then◌else◌,
}
use ddrl_nav2d.Worker.Trajectory.{
  TrajectoryStep, TrajectoryBuffer, push_step, complete_pending_step,
}
use ddrl_nav2d.Worker.SimLoop.{
  Env, Config, Instance, Phase, StepResult, flush, PolicyContext, snapshot_if_fragment_start,
  decide, end_episode, reseed, record_step, handle_step, poll_at, poll, polls, boot, new_instance,
}
use ddrl_nav2d.Worker.SimLoop.Fragment.{IsOpen, Ends, Ends-append, Ends-IsOpen}
use ddrl_nav2d.Worker.SimLoop.Invariant.{IsReady, Handed, Inv, HasPublisher, recorded, completed}
use ddrl_nav2d.Worker.SimLoop.Flush.{Flushed, flush-Flushed}

module _ (E : Env) (cfg : Config) (unroll : ℕ) where
  open E use {payload}

  -- Recording a step and flushing.
  pub push_flush :
      (i : Instance E) (s : TrajectoryStep payload) (b : TrajectoryBuffer payload)
      → HasPublisher cfg
      → Inv E unroll i
      → b.buffer ≡ i.trajectory.buffer
      → b.unroll_length ≡ i.trajectory.unroll_length
      → Ends payload s.is_terminal (b.buffer ++ (s ∷ []))
        × (length (b.buffer ++ (s ∷ [])) ≤ max 1 unroll)
        × Handed E unroll (record i { trajectory = push_step payload b s })
  unfolding push_step
  push_flush i s b p v e u = ground (
    arith,
    Ends-append payload s.is_terminal i.trajectory.buffer s v.open_steps refl,
    length-append i.trajectory.buffer (s ∷ []),
  )

  -- What `decide` needs: a state that may still lack its pending action.
  record Settled (i : Instance E) : Type 0 where
    handed : Handed E unroll i
    short : length i.trajectory.buffer < max 1 unroll
    open_steps : All (IsOpen payload) i.trajectory.buffer

  pub record SameSteps (b c : TrajectoryBuffer payload) : Type 0 where
    pub steps_same : c.buffer ≡ b.buffer
    pub unroll_same : c.unroll_length ≡ b.unroll_length
    pub pending_kept : c.has_pending ≡ b.has_pending

  pub snapshot-SameSteps :
      (ctx : PolicyContext payload) (b : TrajectoryBuffer payload)
      → SameSteps b (snapshot_if_fragment_start E cfg ctx b)
  unfolding snapshot_if_fragment_start
  snapshot-SameSteps ctx b = ground arith

  decide-Inv :
      (i : Instance E) (obs : payload.Observation) → Settled i → Inv E unroll (decide E cfg i obs)
  unfolding decide
  decide-Inv i obs v = ground (arith, snapshot-SameSteps i.policy i.trajectory)

  end_episode-Inv : (i : Instance E) → Handed E unroll i → Inv E unroll (end_episode E cfg i)
  unfolding end_episode
  end_episode-Inv i h = ground arith

  reseed-Inv :
      (i : Instance E) (r : Option payload.Observation)
      → Inv E unroll i
      → i.trajectory.buffer ≡ []
      → Inv E unroll (reseed E cfg i r)
  unfolding reseed
  reseed-Inv i none v e = ground arith
  reseed-Inv i (some obs) v e = ground (arith, decide-Inv i obs)

  -- A non-terminal flush leaves a state in which the next action can be chosen.
  Flushed-Settled :
      (i q : Instance E)
      → Flushed E cfg unroll false i q
      → Ends payload false i.trajectory.buffer
      → Settled q
  Flushed-Settled i q f n = ground (arith, f.handed, Ends-IsOpen payload i.trajectory.buffer n)

  after_flush :
      (t : Bool) (i q : Instance E) (obs : payload.Observation)
      → Flushed E cfg unroll t i q
      → Ends payload t i.trajectory.buffer
      → Inv E unroll (if t then end_episode E cfg q else decide E cfg q obs)
  after_flush true i q obs f n = end_episode-Inv q f.handed
  after_flush false i q obs f n = decide-Inv q obs (Flushed-Settled i q f n)

  record_step-Inv :
      (i : Instance E) (r : StepResult payload) (s : TrajectoryStep payload)
      (b : TrajectoryBuffer payload)
      → HasPublisher cfg
      → Inv E unroll i
      → b.buffer ≡ i.trajectory.buffer
      → b.unroll_length ≡ i.trajectory.unroll_length
      → s.is_terminal ≡ E.is_terminal_of r.observation
      → Inv E unroll (record_step E cfg i r (some (s, b)))
  unfolding record_step
  record_step-Inv i r s b p v e u st =
      let t = E.is_terminal_of r.observation in
      let i' : Instance E = record i { trajectory = push_step payload b s } in
      let (n, l, h) = push_flush i s b p v e u in
      let n' : Ends payload t (b.buffer ++ (s ∷ [])) = rw (← st) n in
      after_flush t i' (flush E cfg i' r.episode_return t) r.observation
        (flush-Flushed E cfg unroll i' r.episode_return t p h n' l) n'

  complete_lem :
      (i : Instance E) (r : StepResult payload)
      → i.trajectory.has_pending ≡ true
      → complete_pending_step payload E.moved i.trajectory
          (E.reward_of r.observation)
          (E.is_terminal_of r.observation)
          r.reward_terms
        ≡ some (recorded E i r, completed E i r)
  unfolding complete_pending_step
  complete_lem i r e = ground arith

  pub complete-recorded :
      (i : Instance E) (r : StepResult payload)
      → i.trajectory.has_pending ≡ true
      → handle_step E cfg i (some r)
        ≡ record_step E cfg i r (some (recorded E i r, completed E i r))
  unfolding handle_step
  complete-recorded i r e = ap (record_step E cfg i r) (complete_lem i r e)

  handle_step-Inv :
      (i : Instance E) (r : Option (StepResult payload))
      → HasPublisher cfg
      → Inv E unroll i
      → i.trajectory.has_pending ≡ true
      → Inv E unroll (handle_step E cfg i r)
  unfolding handle_step
  handle_step-Inv i none p v e = ground arith
  handle_step-Inv i (some r) p v e =
      rw (complete-recorded i r e)
        (record_step-Inv i r (recorded E i r) (completed E i r) p v refl refl refl)

  pub with_sim :
      (i : Instance E) (sim : E.Sim) → Inv E unroll i → Inv E unroll (record i { sim = sim })
  with_sim i sim v = ground arith

  pub poll_at-Inv :
      (i : Instance E) (phase : Phase E)
      → HasPublisher cfg
      → Inv E unroll i
      → i.phase ≡ phase
      → Inv E unroll (poll_at E cfg i phase)
  unfolding poll_at
  poll_at-Inv i (Phase.reseeding r) p v e =
      reseed-Inv i r v (subst (IsReady E i.trajectory) e v.ready)
  poll_at-Inv i (Phase.running eval) p v e =
      let (sim, result) = E.advance i.sim eval.action in
      handle_step-Inv (record i { sim = sim }) result p (with_sim i sim v)
        (subst (IsReady E i.trajectory) e v.ready)
  poll_at-Inv i Phase.stopped p v e = v
  poll_at-Inv i Phase.crashed p v e = v

  pub polls-Inv :
      (n : ℕ) (i : Instance E) → HasPublisher cfg → Inv E unroll i → Inv E unroll (polls E cfg n i)
  unfolding polls poll
  polls-Inv zero i p v = v
  polls-Inv (suc n) i p v = polls-Inv n _ p (poll_at-Inv i i.phase p v refl)

  pub boot-Inv :
      (sim : E.Sim) → HasPublisher cfg → Inv E unroll (boot E cfg (new_instance E cfg unroll sim))
  unfolding boot
  boot-Inv sim (p, ok) = rw (lt→ltb _ _ ok) (end_episode-Inv (new_instance E cfg unroll sim) fresh)
    where
      fresh : Handed E unroll (new_instance E cfg unroll sim)
      fresh = record { unroll_length = refl; fragments = tt; numbered = tt; sequence = refl }
