-- ===== src/Sim/Curriculum/Refine.antt =====
-- The curriculum of libs/sim/src/simulator.cpp against a plain account of it, which keeps every
-- outcome since the phase began.
use ddrl_nav2d.Prelude.{
  ℕ, zero, suc, ◌+◌, ◌-◌, ◌%◌, ◌^◌, ◌≤◌, ◌≡◌, refl, sym, Bool, true, false, not, ◌&&◌, ◌||◌,
  if◌then◌else◌, List, [], ◌∷◌, ◌++◌, length, drop, get_elem?, ltb, length-append, length-drop,
  Bool-cases, inl, inr, arith, lt→ltb,
}
use ddrl_nav2d.Sim.Maths.{Maths}
use ddrl_nav2d.Sim.Spawn.{increment}
use ddrl_nav2d.Sim.Spawn.Queue.{is_empty}
use ddrl_nav2d.Sim.Curriculum.{
  Curriculum, Progress, no_progress, trim, wins, phase_at, window_of, keep_window, promotes,
  is_last, record_episode_outcome, maybe_advance_curriculum, end_episode, end_episodes,
}

-- The last `n` outcomes.
abbrev pub last_n : ℕ → List Bool → List Bool
last_n n bs = drop (length bs - n) bs

zero_add : (j : ℕ) → 0 + j ≡ j
zero_add j = omega arith

suc_add : (i j : ℕ) → suc i + j ≡ suc (i + j)
suc_add i j = omega arith

suc_sub : (m n : ℕ) → n ≤ m → suc m - n ≡ suc (m - n)
suc_sub m n h = omega arith

sub_zero : (m n : ℕ) → m ≤ n → m - n ≡ 0
sub_zero m n h = omega arith

drop_none : (n : ℕ) → last_n n [] ≡ []
drop_none n = rw (sub_zero 0 n (omega arith)) refl

drop_empty : (n : ℕ) → ◌≡◌ {A = List Bool} (drop n []) []
drop_empty zero = refl
drop_empty (suc n) = refl

minus_zero : (n : ℕ) → n - 0 ≡ n
minus_zero n = omega arith

drop_all : (bs : List Bool) → drop (length bs) bs ≡ []
drop_all [] = refl
drop_all (b ∷ bs) = drop_all bs

drop-snoc :
    (k : ℕ) (bs : List Bool) (b : Bool)
    → k ≤ length bs
    → drop k (bs ++ (b ∷ [])) ≡ drop k bs ++ (b ∷ [])
drop-snoc zero bs b h = refl
drop-snoc (suc k) [] b h = elim h [ ]
drop-snoc (suc k) (c ∷ bs) b h = drop-snoc k bs b (omega arith)

drop-drop : (i j : ℕ) (bs : List Bool) → drop j (drop i bs) ≡ drop (i + j) bs
drop-drop zero j bs = rw (zero_add j) refl
drop-drop (suc i) j [] = rw (drop_empty j, drop_empty (suc i + j)) refl
drop-drop (suc i) j (b ∷ bs) = rw (suc_add i j) (drop-drop i j bs)

trim-last_n : (n : ℕ) (bs : List Bool) → trim n bs ≡ last_n n bs
trim-last_n n [] = sym (drop_none n)
trim-last_n n (b ∷ bs) = elim (Bool-cases (ltb n (suc (length bs)))) [
  | inl t ↦ rw (t, suc_sub (length bs) n (ground arith)) (trim-last_n n bs)
  | inr f ↦ rw (f, sub_zero (suc (length bs)) n (ground arith)) refl
]

keep_window-last_n :
    (M : Maths) (curr : Curriculum M) (n : ℕ) (bs : List Bool) (b : Bool)
    → keep_window M curr n (last_n n bs ++ (b ∷ [])) ≡ last_n n (bs ++ (b ∷ []))
keep_window-last_n M curr zero bs b =
    rw (minus_zero (length (bs ++ (b ∷ [])))) (sym (drop_all (bs ++ (b ∷ []))))
keep_window-last_n M curr (suc n) bs b =
    let k = length bs - suc n in
    let longer = bs ++ (b ∷ []) in
    let one = length-append bs (b ∷ []) in
    let index : k + (length (drop k longer) - suc n) ≡ length longer - suc n =
      omega (arith, length-drop k longer, one) in
    rw
      (
        lt→ltb 0 (suc n) (omega arith),
        ← (drop-snoc k bs b (omega arith)),
        trim-last_n (suc n) (drop k longer),
        drop-drop k (length (drop k longer) - suc n) longer,
        index,
      )
      refl

wins-snoc : (bs : List Bool) (b : Bool) → wins (bs ++ (b ∷ [])) ≡ wins bs + wins (b ∷ [])
wins-snoc [] b = rw (zero_add (wins (b ∷ []))) refl
wins-snoc (true ∷ bs) b = omega (arith, wins-snoc bs b)
wins-snoc (false ∷ bs) b = wins-snoc bs b

count_one :
    (b : Bool) (bs : List Bool)
    → (if b then increment (wins bs % 2 ^ 64) else wins bs % 2 ^ 64)
      ≡ wins (bs ++ (b ∷ [])) % 2 ^ 64
count_one true bs = omega (arith, wins-snoc bs true)
count_one false bs = omega (arith, wins-snoc bs false)

module _ (M : Maths) (curr : Curriculum M) where
  -- The phase and every outcome since it began.
  pub record Account : Type 0 where
    pub phase : ℕ
    pub since : List Bool

  abbrev advances : ℕ → List Bool → Bool
  advances idx window =
      (not (not curr.enabled || is_empty curr.phases) && not (is_last M curr idx))
      && promotes M curr (get_elem? curr.phases idx) window

  -- The next phase begins, with no outcomes, when the last ones of this phase are good enough.
  abbrev pub account : Bool → Account → Account
  account b a =
      let since = a.since ++ (b ∷ []) in
      if advances a.phase (last_n (window_of M curr (phase_at M curr a.phase)) since)
      then record { phase = suc a.phase; since = [] }
      else record { phase = a.phase; since = since }

  abbrev pub accounts : List Bool → Account → Account
  accounts [] a = a
  accounts (b ∷ bs) a = accounts bs (account b a)

  pub record Abstracts (s : Progress) (a : Account) : Type 0 where
    pub same_phase : s.current_phase_idx ≡ a.phase
    pub window : s.success_window ≡ last_n (window_of M curr (phase_at M curr a.phase)) a.since
    pub episodes : s.episodes_in_phase ≡ length a.since % 2 ^ 64
    pub successes : s.successes_in_phase ≡ wins a.since % 2 ^ 64

  record-Abstracts :
      (b : Bool) (s : Progress) (a : Account)
      → Abstracts s a
      → Abstracts
          (record_episode_outcome M curr b s)
          (record { phase = a.phase; since = a.since ++ (b ∷ []) })
  unfolding record_episode_outcome
  record-Abstracts b s a r = record {
    same_phase = r.same_phase;
    window = rw (r.same_phase, r.window) (keep_window-last_n M curr _ a.since b);
    episodes = omega (arith, r.episodes, length-append a.since (b ∷ []));
    successes = rw r.successes (count_one b a.since);
  }

  abbrev promoted : Progress → Progress
  promoted s = record {
    current_phase_idx = suc s.current_phase_idx;
    episodes_in_phase = 0;
    successes_in_phase = 0;
    success_window = [];
  }

  advance-Abstracts :
      (s : Progress) (a : Account)
      → Abstracts s a
      → Abstracts (maybe_advance_curriculum M curr s) (
          if advances a.phase (last_n (window_of M curr (phase_at M curr a.phase)) a.since)
          then record { phase = suc a.phase; since = [] }
          else a)
  unfolding maybe_advance_curriculum
  advance-Abstracts s a r = ground arith

  end_episodes-Abstracts :
      (bs : List Bool) (s : Progress) (a : Account)
      → Abstracts s a
      → Abstracts (end_episodes M curr bs s) (accounts bs a)
  end_episodes-Abstracts [] s a r = r
  end_episodes-Abstracts (b ∷ bs) s a r =
      end_episodes-Abstracts bs (end_episode M curr b s) (account b a)
        (advance-Abstracts (record_episode_outcome M curr b s) _ (record-Abstracts b s a r))

  -- After any episodes the simulator is in the phase of the plain account; its window holds the last
  -- outcomes of that phase, as many as the phase's window takes; and its counters are the episodes
  -- and the successes since the phase began, modulo 2 ^ 64.
  pub curriculum-Abstracts :
      (bs : List Bool)
      → Abstracts
          (end_episodes M curr bs no_progress)
          (accounts bs (record { phase = 0; since = [] }))
  curriculum-Abstracts bs =
      end_episodes-Abstracts bs no_progress (record { phase = 0; since = [] })
        (record {
          same_phase = refl;
          window = sym (drop_none (window_of M curr (phase_at M curr 0)));
          episodes = omega arith;
          successes = omega arith;
        })
