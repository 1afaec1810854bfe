-- ===== src/Sim/Simulator/Step/Returns.antt =====
-- `Simulator::Impl::step` of libs/sim/src/simulator.cpp reaches its decision tick.
use ddrl_nav2d.Prelude.{◌≡◌, refl, Bool, true, false, Option, none, some}
use ddrl_nav2d.Sim.Simulator.{Parts, Options, Simulator, after_publish, publish_world_snapshot}
use ddrl_nav2d.Sim.Simulator.Step.{SimStepResult, check_limits, finish}
use ddrl_nav2d.Sim.Simulator.Loop.{publish-outcome, not_true}

abbrev pub has_value {ℓ} : {A : Type ℓ} → Option A → Bool
has_value none = false
has_value (some x) = true

-- The world and the event bus report no error.
pub record IsHealthy (P : Parts) : Type 0 where
  pub updates : (dt : P.Real) (world : P.World) → (P.update dt world).0 ≡ true
  pub applies : (action : P.Action) (world : P.World) → (P.apply_action action world).0 ≡ true
  pub publishes :
      (time : P.Real) (snapshot : P.Snapshot) (bus : P.Bus) → (P.publish time snapshot bus).0 ≡ true

module _ (P : Parts) (opts : Options P) (healthy : IsHealthy P) where
  open healthy use {updates, applies, publishes}

  unfoldable pub Runs : Bool × Simulator P → Type 0
  Runs (ok, s) = (ok ≡ true) × (has_value s.world ≡ true)

  pub publish-Runs :
      (time : P.Real) (force : Bool) (s : Simulator P)
      → has_value s.world ≡ true
      → Runs (publish_world_snapshot P opts time force s)
  unfolding Runs
  publish-Runs time force s h =
      publish-outcome P opts Runs time force s (refl, h) (λ world. (refl, refl))
        (λ snapshot world.
          go (P.publish time snapshot s.bus) (record s { world = some world })
            (publishes time snapshot s.bus) refl)
    where
      go :
          (r : Bool × P.Bus) (t : Simulator P)
          → r.0 ≡ true
          → has_value t.world ≡ true
          → Runs (after_publish P opts time r t)
      go (true, bus) t ok w = (refl, w)
      go (false, bus) t ok w = elim (not_true ok) [ ]

module _ (P : Parts) (opts : Options P) where
  -- What a step returns: what the decision tick gives on the world of a simulator that has reached
  -- the time.
  pub record Ticked (target_time : P.Real) (r : Option (SimStepResult P) × Simulator P)
      : Type 0 where
    pub reached : Simulator P
    pub world : P.World
    pub holds : reached.world ≡ some world
    pub in_time : P.lt (P.add reached.sim_time_s P.eps) target_time ≡ false
    pub ticked :
        r
        ≡ finish P opts target_time
            (P.on_decision_tick target_time opts.decision_dt reached.accumulated_reward
              (check_limits P opts target_time reached).episode_terminal
              world)
            (check_limits P opts target_time reached)
