-- ===== src/Worker/SimLoop/Run.antt =====
-- A whole run of a simulator thread, from its start to the poll at which it is told to stop.
use ddrl_nav2d.Prelude.{ℕ, ◌≡◌, ◌≢◌, ap, ◌∙◌, subst, ◌++◌, map, concat, All}
use ddrl_nav2d.Worker.SimLoop.{Env, Config, Instance, Phase, Rollout, polls, boot, new_instance}
use ddrl_nav2d.Worker.SimLoop.Fragment.{IsFragment, Numbered}
use ddrl_nav2d.Worker.SimLoop.Invariant.{IsReady, Inv, HasPublisher}
use ddrl_nav2d.Worker.SimLoop.Preserve.{polls-Inv, boot-Inv}
use ddrl_nav2d.Worker.SimLoop.Delivery.{observed, delivered-polls, delivered-boot}

module _ (E : Env) (cfg : Config) (unroll : ℕ) where
  open E use {payload}

  -- The thread of a fresh instance after `n` polls.
  abbrev pub after : ℕ → E.Sim → Instance E
  after n sim = polls E cfg n (boot E cfg (new_instance E cfg unroll sim))

  after-Inv : (publisher : HasPublisher cfg) (n : ℕ) (sim : E.Sim) → Inv E unroll (after n sim)
  after-Inv publisher n sim =
      polls-Inv E cfg unroll n _ publisher (boot-Inv E cfg unroll sim publisher)

  -- With a publisher configured and an instance index in range, whatever the simulator, policy and
  -- schedule: the steps of the emitted rollouts, in order, followed by the steps still buffered,
  -- are exactly the steps that the simulator performed: none is lost, repeated or reordered.
  pub delivery :
      (publisher : HasPublisher cfg) (n : ℕ) (sim : E.Sim)
      → let i = after n sim in
        concat (map (λ (r : Rollout payload). r.steps) i.emitted) ++ i.trajectory.buffer
        ≡ observed E cfg n (boot E cfg (new_instance E cfg unroll sim))
  delivery publisher n sim =
      let start = boot E cfg (new_instance E cfg unroll sim) in
      delivered-polls E cfg unroll publisher n start (boot-Inv E cfg unroll sim publisher)
      ∙ ap (λ xs. xs ++ observed E cfg n start) (delivered-boot E cfg unroll publisher sim)

  -- With a publisher configured and an instance index in range, every emitted rollout is a
  -- non-empty run of at most max(1, unroll_length) steps in which only the last step may end an
  -- episode, its `is_terminal` says whether that one does, and a rollout that does not end an
  -- episode is full; their ids are 0, 1, 2, … modulo 2^64.
  pub fragments :
      (publisher : HasPublisher cfg) (n : ℕ) (sim : E.Sim)
      → All (IsFragment payload unroll) (after n sim).emitted
        × Numbered payload 0 (after n sim).emitted
  fragments publisher n sim =
      let v = after-Inv publisher n sim in (v.handed.fragments, v.handed.numbered)

  -- With a publisher configured and an instance index in range, the exception of
  -- `complete_pending_step` is never thrown: a step is always pending when a reward arrives.
  pub never_crashes :
      (publisher : HasPublisher cfg) (n : ℕ) (sim : E.Sim) → (after n sim).phase ≢ Phase.crashed
  never_crashes publisher n sim e =
      subst (IsReady E (after n sim).trajectory) e (after-Inv publisher n sim).ready
