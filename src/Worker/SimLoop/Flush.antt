-- ===== src/Worker/SimLoop/Flush.antt =====
-- `flush`: when the buffer is full or the episode ends, the buffered steps become a rollout.
use ddrl_nav2d.Prelude.{
  ℕ, ◌+◌, ◌%◌, ◌^◌, ◌≤◌, ◌<◌, max, ◌≡◌, refl, ◌⊎◌, inl, inr, Bool, true, false, none, List, [], ◌∷◌,
  ◌++◌, length, length-append, All-append, arith, Bool-cases, lt→ltb, leb, ◌||◌,
}
use ddrl_nav2d.Worker.Trajectory.{TrajectoryStep}
use ddrl_nav2d.Worker.SimLoop.{Env, Config, Instance, flush, rollout_of, is_nil}
use ddrl_nav2d.Worker.SimLoop.Fragment.{Ends, IsFragment, Numbered-append}
use ddrl_nav2d.Worker.SimLoop.Invariant.{Handed, HasPublisher}

module _ (E : Env) (cfg : Config) (unroll : ℕ) where
  open E use {payload}

  pub record Flushed (t : Bool) (i q : Instance E) : Type 0 where
    pub handed : Handed E unroll q
    pub outcome :
        (q.trajectory.buffer ≡ [])
        ⊎ ((t ≡ false)
            × (q.trajectory.buffer ≡ i.trajectory.buffer)
            × (length i.trajectory.buffer < unroll))
    pub pending_same : q.trajectory.has_pending ≡ i.trajectory.has_pending

  abbrev pub emit : Instance E → payload.Double → Bool → Instance E
  emit i ret t = record i {
    trajectory = record (i.trajectory) { buffer = []; initial_recurrent_state = none };
    rollout_sequence = (i.rollout_sequence + 1) % 2 ^ 64;
    emitted = i.emitted ++ (rollout_of E cfg i i.trajectory.buffer ret t ∷ []);
  }

  pub flush-emit :
      (i : Instance E) (ret : payload.Double) (t : Bool)
      → HasPublisher cfg
      → is_nil i.trajectory.buffer ≡ false
      → (leb i.trajectory.unroll_length (length i.trajectory.buffer) || t) ≡ true
      → flush E cfg i ret t ≡ emit i ret t
  unfolding flush
  flush-emit i ret t (p, ok) n full = rw (full, n, p, lt→ltb _ _ ok)

  pub flush-keep :
      (i : Instance E) (ret : payload.Double) (t : Bool)
      → (leb i.trajectory.unroll_length (length i.trajectory.buffer) || t) ≡ false
      → flush E cfg i ret t ≡ i
  unfolding flush
  flush-keep i ret t full = rw full

  emit-Handed :
      (i : Instance E) (ret : payload.Double) (t : Bool)
      → Handed E unroll i
      → Ends payload t i.trajectory.buffer
      → length i.trajectory.buffer ≤ max 1 unroll
      → (t ≡ true) ⊎ (length i.trajectory.buffer ≡ max 1 unroll)
      → Handed E unroll (emit i ret t)
  emit-Handed i ret t h n l full =
      let r = rollout_of E cfg i i.trajectory.buffer ret t in
      let fragment : IsFragment payload unroll r = record {
        ends = n;
        length_le = l;
        full_or_terminal = full;
      } in
      record {
        unroll_length = h.unroll_length;
        fragments =
            All-append (IsFragment payload unroll) i.emitted (r ∷ []) h.fragments (fragment, tt);
        numbered = Numbered-append payload 0 i.emitted r h.numbered (omega (arith, h.sequence));
        sequence = omega (arith, h.sequence, length-append i.emitted (r ∷ []));
      }

  -- After the last push the buffer is not empty, and at most full.
  pub is_nil-Ends :
      (t : Bool) (b : List (TrajectoryStep payload)) → Ends payload t b → is_nil b ≡ false
  is_nil-Ends t [] n = absurd n
  is_nil-Ends t (s ∷ rest) n = refl

  length-Ends : (t : Bool) (b : List (TrajectoryStep payload)) → Ends payload t b → 0 < length b
  length-Ends t [] n = absurd n
  length-Ends t (s ∷ rest) n = omega arith

  pub flush-Flushed :
      (i : Instance E) (ret : payload.Double) (t : Bool)
      → HasPublisher cfg
      → Handed E unroll i
      → Ends payload t i.trajectory.buffer
      → length i.trajectory.buffer ≤ max 1 unroll
      → Flushed t i (flush E cfg i ret t)
  flush-Flushed i ret t p h n l =
      elim (Bool-cases (leb i.trajectory.unroll_length (length i.trajectory.buffer) || t)) [
        | inl full ↦ rw (flush-emit i ret t p (is_nil-Ends t _ n) full) (record {
          handed =
              emit-Handed i ret t h n l
                (ground (arith, h.unroll_length, length-Ends t i.trajectory.buffer n));
          outcome = inl refl;
          pending_same = refl;
        })
        | inr room ↦ rw (flush-keep i ret t room) (record {
          handed = h;
          outcome = inr (ground (arith, h.unroll_length));
          pending_same = refl;
        })
      ]
