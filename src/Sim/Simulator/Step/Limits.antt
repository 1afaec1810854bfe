-- ===== src/Sim/Simulator/Step/Limits.antt =====
-- The limits of an episode in libs/sim/src/simulator.cpp.
use ddrl_nav2d.Prelude.{
  ℕ, ◌<◌, ◌≡◌, refl, sym, subst, ◌∙◌, Bool, true, false, ◌&&◌, ◌||◌, Option, none, some, Bool-cases,
  inl, inr, ltb, leb, arith,
}
use ddrl_nav2d.Sim.Simulator.{Parts, Options, Simulator}
use ddrl_nav2d.Sim.Simulator.Step.{
  SimStepResult, clear_step, next_count, check_limits, finish, tick_at, tick, integrate_and_tick,
  step_in, step,
}
use ddrl_nav2d.Sim.Simulator.Step.Count.{HasCount, integrate_until-HasCount, apply-HasCount}

not_true : false ≡ true → ⊥
not_true h = ground arith

no_limit :
    (n limit : ℕ) (terminal over : Bool)
    → 0 < limit
    → (terminal || ((ltb 0 limit && leb limit n) || over)) ≡ false
    → (n < limit) × (over ≡ false)
no_limit n limit true over h k = elim (not_true (sym k)) [ ]
no_limit n limit false over h k = (ground arith, ground arith)

module _ (P : Parts) (opts : Options P) (limited : 0 < opts.max_decision_steps)
    (ends : (time dt reward : P.Real) (world : P.World) (obs : P.Observation)
      → (P.on_decision_tick time dt reward true world).0 ≡ some obs
      → P.is_terminal obs ≡ true) where
  -- What a result that does not end the episode says of the count before the step.
  Fits : ℕ → Option (SimStepResult P) × Simulator P → Type 0
  Fits n (none, s) = Unit
  Fits n (some r, s) =
      r.episode_done ≡ false
      → (s.episode_step_count ≡ next_count P opts n)
        × ((s.episode_step_count < opts.max_decision_steps) × (r.time_limit_reached ≡ false))

  checked-Fits :
      (target_time : P.Real) (o : Option P.Observation × P.World) (s : Simulator P)
      → ((obs : P.Observation)
          → o.0 ≡ some obs
          → (check_limits P opts target_time s).episode_terminal ≡ true
          → P.is_terminal obs ≡ true)
      → Fits s.episode_step_count (finish P opts target_time o (check_limits P opts target_time s))
  unfolding Fits
  checked-Fits target_time (none, world) s kept = tt
  checked-Fits target_time (some obs, world) s kept = λ going. (
    refl,
    no_limit _ _ s.episode_terminal _ limited
        (elim (Bool-cases (check_limits P opts target_time s).episode_terminal) [
          | inl t ↦ elim (not_true (sym going ∙ kept obs refl t)) [ ]
          | inr f ↦ f
        ]),
  )

  tick_at-Fits :
      (world : Option P.World) (target_time : P.Real) (s : Simulator P)
      → Fits s.episode_step_count
          (tick_at P opts world target_time (check_limits P opts target_time s))
  unfolding Fits
  tick_at-Fits none target_time s = tt
  tick_at-Fits (some world) target_time s = checked-Fits target_time _ s (λ obs e t.
      ends target_time opts.decision_dt s.accumulated_reward world obs (
        subst
          (λ b.
            (P.on_decision_tick target_time opts.decision_dt s.accumulated_reward b world).0
            ≡ some obs)
          t e))

  tick-Fits :
      (n : ℕ) (target_time : P.Real) (r : Bool × Simulator P)
      → HasCount P opts n r
      → Fits n (tick P opts target_time r)
  unfolding Fits HasCount
  tick-Fits n target_time (false, s) h = tt
  tick-Fits n target_time (true, s) h = ground (arith, tick_at-Fits s.world target_time s)

  integrate_and_tick-Fits :
      (n passes : ℕ) (r : Bool × Simulator P)
      → HasCount P opts n r
      → Fits n (integrate_and_tick P opts passes r)
  unfolding Fits HasCount
  integrate_and_tick-Fits n passes (false, s) h = tt
  integrate_and_tick-Fits n passes (true, s) h =
      tick-Fits n _ _ (integrate_until-HasCount P opts passes _ (clear_step P opts s) ∙ h)

  step_in-Fits :
      (world : Option P.World) (passes : ℕ) (action : Option P.Action) (s : Simulator P)
      → Fits s.episode_step_count (step_in P opts world passes action s)
  unfolding Fits
  step_in-Fits none passes action s = tt
  step_in-Fits (some world) passes action s =
      integrate_and_tick-Fits s.episode_step_count passes _ (apply-HasCount P opts action world s)

  -- With a limit on the decision steps, and a world that hands the end of an episode on to the
  -- observation, a step that returns a result without an end of the episode has counted one step,
  -- the count is below the limit, and the time limit is not reached.
  pub step_limits :
      (passes : ℕ) (action : Option P.Action) (s t : Simulator P) (result : SimStepResult P)
      → step P opts passes action s ≡ (some result, t)
      → result.episode_done ≡ false
      → (t.episode_step_count ≡ next_count P opts s.episode_step_count)
        × ((t.episode_step_count < opts.max_decision_steps) × (result.time_limit_reached ≡ false))
  unfolding step Fits
  step_limits passes action s t result e =
      subst (λ r. Fits s.episode_step_count r) e (step_in-Fits s.world passes action s)
