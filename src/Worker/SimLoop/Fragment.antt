-- ===== src/Worker/SimLoop/Fragment.antt =====
-- What a rollout may be: a run of steps of one episode, full or ending the episode.
use ddrl_nav2d.Prelude.{
  ℕ, suc, ◌+◌, ◌%◌, ◌^◌, ◌≤◌, max, ◌≡◌, ◌⊎◌, Bool, true, false, List, [], ◌∷◌, ◌++◌, length, All,
  arith,
}
use ddrl_nav2d.Worker.Trajectory.{Payload, TrajectoryStep}
use ddrl_nav2d.Worker.SimLoop.{Rollout}

module _ (P : Payload) where
  abbrev pub IsOpen : TrajectoryStep P → Type 0
  IsOpen s = s.is_terminal ≡ false

  -- A non-empty run of steps whose last step alone may end an episode, and does so if `t`.
  abbrev pub Ends : Bool → List (TrajectoryStep P) → Type 0
  Ends t [] = ⊥
  Ends t (s ∷ []) = s.is_terminal ≡ t
  Ends t (s ∷ (s' ∷ rest)) = IsOpen s × Ends t (s' ∷ rest)

  pub Ends-append :
      (t : Bool) (xs : List (TrajectoryStep P)) (s : TrajectoryStep P)
      → All IsOpen xs
      → s.is_terminal ≡ t
      → Ends t (xs ++ (s ∷ []))
  Ends-append t [] s h e = e
  Ends-append t (x ∷ []) s h e = (h.0, e)
  Ends-append t (x ∷ (y ∷ rest)) s h e = (h.0, Ends-append t (y ∷ rest) s h.1 e)

  pub Ends-IsOpen : (xs : List (TrajectoryStep P)) → Ends false xs → All IsOpen xs
  Ends-IsOpen [] h = tt
  Ends-IsOpen (x ∷ []) h = (h, tt)
  Ends-IsOpen (x ∷ (y ∷ rest)) h = (h.0, Ends-IsOpen (y ∷ rest) h.1)

  -- A rollout is a fragment of one episode: it is full, or it ends the episode.
  pub record IsFragment (unroll : ℕ) (r : Rollout P) : Type 0 where
    pub ends : Ends r.is_terminal r.steps
    pub length_le : length r.steps ≤ max 1 unroll
    pub full_or_terminal : (r.is_terminal ≡ true) ⊎ (length r.steps ≡ max 1 unroll)

  abbrev pub Numbered : ℕ → List (Rollout P) → Type 0
  Numbered k [] = Unit
  Numbered k (r ∷ rs) = (r.rollout_id ≡ k % 2 ^ 64) × Numbered (suc k) rs

  pub Numbered-append :
      (k : ℕ) (rs : List (Rollout P)) (r : Rollout P)
      → Numbered k rs
      → r.rollout_id ≡ (k + length rs) % 2 ^ 64
      → Numbered k (rs ++ (r ∷ []))
  Numbered-append k [] r h e = (omega arith, tt)
  Numbered-append k (x ∷ rs) r h e = (h.0, Numbered-append (suc k) rs r h.1 (omega arith))
