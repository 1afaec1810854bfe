-- ===== src/Worker/SimLoop/Invariant.antt =====
-- The invariant of a simulator thread between two polls, when a publisher is configured.
use ddrl_nav2d.Prelude.{ℕ, ◌%◌, ◌^◌, ◌<◌, max, ◌≡◌, true, false, [], length, All}
use ddrl_nav2d.Worker.Trajectory.{TrajectoryStep, TrajectoryBuffer}
use ddrl_nav2d.Worker.SimLoop.{Env, Config, Instance, Phase, StepResult}
use ddrl_nav2d.Worker.SimLoop.Fragment.{IsOpen, IsFragment, Numbered}

-- The rollouts of this thread reach the publisher.
abbrev pub HasPublisher : Config → Type 0
HasPublisher cfg = (cfg.has_publisher ≡ true) × (cfg.sim_id < cfg.instance_count)

module _ (E : Env) where
  open E use {payload}

  abbrev pub IsReady : TrajectoryBuffer payload → Phase E → Type 0
  IsReady b (Phase.reseeding r) = b.buffer ≡ []
  IsReady b (Phase.running eval) = b.has_pending ≡ true
  IsReady b Phase.stopped = Unit
  IsReady b Phase.crashed = ⊥

  -- The step that the thread records: the pending (S_t, A_t) with the reward that it earned.
  abbrev pub recorded : Instance E → StepResult payload → TrajectoryStep payload
  recorded i r = record (i.trajectory.pending_step) {
    reward = E.reward_of r.observation;
    is_terminal = E.is_terminal_of r.observation;
    reward_terms = r.reward_terms;
  }

  abbrev pub completed : Instance E → StepResult payload → TrajectoryBuffer payload
  completed i r = record (i.trajectory) {
    pending_step = E.moved (recorded i r);
    has_pending = false;
  }

module _ (E : Env) (unroll : ℕ) where
  open E use {payload}

  -- What the thread has handed out, in a valid state.
  pub record Handed (i : Instance E) : Type 0 where
    pub unroll_length : i.trajectory.unroll_length ≡ unroll
    pub fragments : All (IsFragment payload unroll) i.emitted
    pub numbered : Numbered payload 0 i.emitted
    pub sequence : i.rollout_sequence ≡ length i.emitted % 2 ^ 64

  pub record Inv (i : Instance E) : Type 0 where
    pub handed : Handed i
    pub ready : IsReady E i.trajectory i.phase
    pub short : length i.trajectory.buffer < max 1 unroll
    pub open_steps : All (IsOpen payload) i.trajectory.buffer
