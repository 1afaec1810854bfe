-- ===== src/Worker/SimLoop/Delivery.antt =====
-- What a simulator thread hands to the publisher, over its whole run.
use mathlib.Core.List.{map-append}
use ddrl_nav2d.Prelude.{
  ℕ, zero, suc, ◌≡◌, refl, sym, ap, ◌∙◌, subst, inl, inr, Bool, true, false, Option, none, some,
  List, [], ◌∷◌, ◌++◌, map, concat, concat-append, append-nil, append_assoc, length, arith,
  Bool-cases, leb, lt→ltb, ◌||◌, if◌then◌else◌,
}
use ddrl_nav2d.Worker.Trajectory.{TrajectoryStep, push_step}
use ddrl_nav2d.Worker.SimLoop.{
  Env, Config, Instance, Phase, Rollout, StepResult, flush, decide, end_episode, reseed,
  record_step, handle_step, poll_at, poll, polls, boot, new_instance,
}
use ddrl_nav2d.Worker.SimLoop.Fragment.{Ends}
use ddrl_nav2d.Worker.SimLoop.Invariant.{IsReady, Inv, HasPublisher, recorded, completed}
use ddrl_nav2d.Worker.SimLoop.Flush.{Flushed, flush-Flushed, flush-emit, flush-keep, is_nil-Ends}
use ddrl_nav2d.Worker.SimLoop.Preserve.{
  push_flush, snapshot-SameSteps, complete-recorded, with_sim, poll_at-Inv,
}

module _ (E : Env) where
  open E use {payload}

  -- The steps handed out so far, then those still buffered.
  abbrev pub delivered : Instance E → List (TrajectoryStep payload)
  delivered i = concat (map (λ (r : Rollout payload). r.steps) i.emitted) ++ i.trajectory.buffer

  abbrev pub observed_step :
      Instance E → Option (StepResult payload) → List (TrajectoryStep payload)
  observed_step i none = []
  observed_step i (some r) = recorded E i r ∷ []

  -- The step, if any, that the simulator performs in the next poll: the state and action that are
  -- pending, with the reward, the end of the episode and the reward terms that it answers.
  abbrev pub observed_at : Instance E → Phase E → List (TrajectoryStep payload)
  observed_at i (Phase.reseeding r) = []
  observed_at i (Phase.running eval) = observed_step i (E.advance i.sim eval.action).1
  observed_at i Phase.stopped = []
  observed_at i Phase.crashed = []

module _ (E : Env) (cfg : Config) where
  open E use {payload}

  -- The steps that the simulator performs in `n` polls.
  pub observed : ℕ → Instance E → List (TrajectoryStep payload)
  observed zero i = []
  observed (suc n) i = observed_at E i i.phase ++ observed n (poll E cfg i)

module _ (E : Env) (cfg : Config) (unroll : ℕ) (publisher : HasPublisher cfg) where
  open E use {payload}

  delivered-flush :
      (i : Instance E) (ret : payload.Double) (t : Bool)
      → Ends payload t i.trajectory.buffer
      → delivered E (flush E cfg i ret t) ≡ delivered E i
  delivered-flush i ret t n =
      elim (Bool-cases (leb i.trajectory.unroll_length (length i.trajectory.buffer) || t)) [
        | inl full ↦
            rw (flush-emit E cfg unroll i ret t publisher (is_nil-Ends E cfg unroll t _ n) full)
              (simp (map-append, concat-append, append-nil))
        | inr room ↦ rw (flush-keep E cfg unroll i ret t room)
      ]

  delivered-decide :
      (i : Instance E) (obs : payload.Observation)
      → delivered E (decide E cfg i obs) ≡ delivered E i
  unfolding decide
  delivered-decide i obs = ground (arith, snapshot-SameSteps E cfg unroll i.policy i.trajectory)

  delivered-end_episode :
      (i : Instance E)
      → i.trajectory.buffer ≡ []
      → delivered E (end_episode E cfg i) ≡ delivered E i
  unfolding end_episode
  delivered-end_episode i e = ground arith

  delivered-after_flush :
      (t : Bool) (i q : Instance E) (obs : payload.Observation)
      → Flushed E cfg unroll t i q
      → delivered E (if t then end_episode E cfg q else decide E cfg q obs) ≡ delivered E q
  delivered-after_flush true i q obs f = delivered-end_episode q (ground (arith, f.outcome))
  delivered-after_flush false i q obs f = delivered-decide q obs

  delivered-record_step :
      (i : Instance E) (r : StepResult payload)
      → Inv E unroll i
      → delivered E (record_step E cfg i r (some (recorded E i r, completed E i r)))
        ≡ delivered E i ++ (recorded E i r ∷ [])
  unfolding record_step push_step
  delivered-record_step i r v =
      let s = recorded E i r in
      let b = completed E i r in
      let t = E.is_terminal_of r.observation in
      let i' : Instance E = record i { trajectory = push_step payload b s } in
      let (n, l, h) = push_flush E cfg unroll i s b publisher v refl refl in
      let f : Flushed E cfg unroll t i' (flush E cfg i' r.episode_return t) =
        flush-Flushed E cfg unroll i' r.episode_return t publisher h n l in
      delivered-after_flush t i' (flush E cfg i' r.episode_return t) r.observation f
      ∙ delivered-flush i' r.episode_return t n
      ∙ sym (append_assoc _ i.trajectory.buffer (s ∷ []))

  delivered-handle_step :
      (i : Instance E) (result : Option (StepResult payload))
      → Inv E unroll i
      → i.trajectory.has_pending ≡ true
      → delivered E (handle_step E cfg i result) ≡ delivered E i ++ observed_step E i result
  delivered-handle_step i none v e = unfold handle_step in sym (append-nil _)
  delivered-handle_step i (some r) v e =
      rw (complete-recorded E cfg unroll i r e) (delivered-record_step i r v)

  delivered-reseed :
      (i : Instance E) (r : Option payload.Observation)
      → delivered E (reseed E cfg i r) ≡ delivered E i
  unfolding reseed
  delivered-reseed i none = refl
  delivered-reseed i (some obs) = ground (arith, delivered-decide i obs)

  delivered-poll_at :
      (i : Instance E) (phase : Phase E)
      → Inv E unroll i
      → i.phase ≡ phase
      → delivered E (poll_at E cfg i phase) ≡ delivered E i ++ observed_at E i phase
  unfolding poll_at
  delivered-poll_at i (Phase.reseeding r) v e = delivered-reseed i r ∙ sym (append-nil _)
  delivered-poll_at i (Phase.running eval) v e =
      let (sim, result) = E.advance i.sim eval.action in
      delivered-handle_step (record i { sim = sim }) result (with_sim E cfg unroll i sim v)
        (subst (IsReady E i.trajectory) e v.ready)
  delivered-poll_at i Phase.stopped v e = sym (append-nil _)
  delivered-poll_at i Phase.crashed v e = sym (append-nil _)

  pub delivered-polls :
      (n : ℕ) (i : Instance E)
      → Inv E unroll i
      → delivered E (polls E cfg n i) ≡ delivered E i ++ observed E cfg n i
  unfolding polls poll observed
  delivered-polls zero i v = sym (append-nil _)
  delivered-polls (suc n) i v =
      delivered-polls n _ (poll_at-Inv E cfg unroll i i.phase publisher v refl)
      ∙ ap (λ xs. xs ++ observed E cfg n (poll_at E cfg i i.phase))
          (delivered-poll_at i i.phase v refl)
      ∙ append_assoc (delivered E i) (observed_at E i i.phase) _

  pub delivered-boot : (sim : E.Sim) → delivered E (boot E cfg (new_instance E cfg unroll sim)) ≡ []
  unfolding boot
  delivered-boot sim =
      rw (lt→ltb _ _ publisher.1) (delivered-end_episode (new_instance E cfg unroll sim) refl)
