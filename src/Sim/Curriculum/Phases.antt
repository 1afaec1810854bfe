-- ===== src/Sim/Curriculum/Phases.antt =====
-- The phases that the curriculum of libs/sim/src/simulator.cpp goes through.
use ddrl_nav2d.Prelude.{
  ℕ, zero, suc, ◌<◌, ◌≡◌, refl, Bool, true, false, List, [], ◌∷◌, some, length, get_elem?, leb,
  arith,
}
use ddrl_nav2d.Sim.Maths.{Maths}
use ddrl_nav2d.Sim.Spawn.Queue.{is_empty}
use ddrl_nav2d.Sim.Curriculum.{
  CurriculumPhase, Curriculum, Progress, no_progress, current_phase, record_episode_outcome,
  maybe_advance_curriculum, end_episode, end_episodes,
}

get_elem?-some :
    {A : Type 0} (xs : List A) (i : ℕ) → i < length xs → (x : A) × (get_elem? xs i ≡ some x)
get_elem?-some [] i h = elim h [ ]
get_elem?-some (x ∷ xs) zero h = (x, refl)
get_elem?-some (x ∷ xs) (suc i) h = get_elem?-some xs i (omega arith)

is_empty-long : {A : Type 0} (xs : List A) (i : ℕ) → i < length xs → is_empty xs ≡ false
is_empty-long [] i h = elim h [ ]
is_empty-long (x ∷ xs) i h = refl

leb-gt : (n i : ℕ) → i < n → leb n i ≡ false
leb-gt n i h = ground arith

module _ (M : Maths) (curr : Curriculum M) where
  advance-range :
      (s : Progress)
      → s.current_phase_idx < length curr.phases
      → (maybe_advance_curriculum M curr s).current_phase_idx < length curr.phases
  unfolding maybe_advance_curriculum
  advance-range s h = ground arith

  end_episodes-range :
      (bs : List Bool) (s : Progress)
      → s.current_phase_idx < length curr.phases
      → (end_episodes M curr bs s).current_phase_idx < length curr.phases
  unfolding record_episode_outcome
  end_episodes-range [] s h = h
  end_episodes-range (b ∷ bs) s h =
      end_episodes-range bs (end_episode M curr b s)
        (advance-range (record_episode_outcome M curr b s) h)

  phase_found :
      (s : Progress)
      → curr.enabled ≡ true
      → s.current_phase_idx < length curr.phases
      → (phase : CurriculumPhase M) × (current_phase M curr s ≡ some phase)
  phase_found s e h = ground (
    arith,
    get_elem?-some curr.phases s.current_phase_idx h,
    is_empty-long curr.phases s.current_phase_idx h,
    leb-gt (length curr.phases) s.current_phase_idx h,
  )

  -- With a curriculum that is enabled and has phases, the simulator has a phase to pick a map from
  -- after any episodes: the index never runs past the last phase.
  pub current_phase_lem :
      (bs : List Bool)
      → curr.enabled ≡ true
      → 0 < length curr.phases
      → (phase : CurriculumPhase M) × (current_phase M curr (end_episodes M curr bs no_progress)
          ≡ some phase)
  current_phase_lem bs e h =
      phase_found (end_episodes M curr bs no_progress) e (end_episodes-range bs no_progress h)
