-- ===== src/Frames/Lookup.antt =====
-- `lookup` and `collect_chain` of libs/core/src/transform/tf.cpp.
use ddrl_nav2d.Prelude.{
  ℕ, zero, suc, ◌≤◌, ◌<◌, ◌≡◌, ◌≢◌, refl, ap, ◌∙◌, true, false, [], ◌∷◌, ◌++◌, none, some, drop,
  Bool-cases, Option-cases, inl, inr, arith,
}
use ddrl_nav2d.Frames.Buffer.{
  Space, TfNode, blank_node, Nodes, Chain, TfError, Result, ok, err, find, walk, collect_chain,
  fold_edges, register_frame, change,
}

-- What the code relies on of the comparison of strings.
pub record IsEquality (S : Space) : Type 0 where
  pub same_refl : (a : S.Name) → S.same a a ≡ true
  pub same_comm : (a b : S.Name) → S.same a b ≡ S.same b a

module _ (S : Space) where
  -- The chains have the same names in their first `n` places, and not in the next one, where one of
  -- them may end.
  abbrev pub Agree : ℕ → Chain S → Chain S → Type 0
  Agree zero [] ys = Unit
  Agree zero (x ∷ xs) [] = Unit
  Agree zero (x ∷ xs) (y ∷ ys) = S.same x.0 y.0 ≡ false
  Agree (suc n) [] ys = ⊥
  Agree (suc n) (x ∷ xs) [] = ⊥
  Agree (suc n) (x ∷ xs) (y ∷ ys) = (S.same x.0 y.0 ≡ true) × Agree n xs ys

  -- The pose that the edges of a chain compose to, the root's side first.
  abbrev pub composed : S.Stamp → Chain S → S.Pose
  composed stamp chain = fold_edges S stamp S.identity chain

  -- What a lookup gives when the chains, root first, have `n` frames in common: the way up from the
  -- target to the last of them, and down to the source.
  abbrev pub joined : S.Stamp → ℕ → Chain S → Chain S → Result S.Pose
  joined stamp zero up_target up_source = err TfError.different_trees
  joined stamp (suc k) up_target up_source = ok (
      S.compose (S.inverse (composed stamp (drop (suc k) up_target)))
        (composed stamp (drop (suc k) up_source)))

module _ (S : Space) where
  -- A chain that starts at the frame and goes from each frame to its parent in the buffer, until a
  -- frame that has none.
  abbrev pub Rises : Nodes S → S.Name → Chain S → Type 0
  Rises nodes cur [] = S.same cur S.no_name ≡ true
  Rises nodes cur ((name, n) ∷ rest) =
      (name ≡ cur) × (find S cur nodes ≡ some n) × Rises nodes n.parent rest

module _ (S : Space) where
  -- Every parent that is not the empty name has a smaller rank than its child.
  abbrev pub Ranked : Nodes S → (S.Name → ℕ) → Type 0
  Ranked nodes rank =
      (name : S.Name) (n : TfNode S)
      → find S name nodes ≡ some n
      → S.same n.parent S.no_name ≡ false
      → rank n.parent < rank name

  walk-ends :
      (nodes : Nodes S) (rank : S.Name → ℕ) (fuel : ℕ) (cur : S.Name) (out : Chain S)
      → Ranked nodes rank
      → (S.same cur S.no_name ≡ false → rank cur < fuel)
      → walk S nodes fuel cur out ≢ none
  unfolding walk
  walk-ends nodes rank zero cur out ranked h = elim (Bool-cases (S.same cur S.no_name)) [
    | inl t ↦ rw t (λ q. cc)
    | inr n ↦ ground (arith, h n)
  ]
  walk-ends nodes rank (suc fuel) cur out ranked h = elim (Bool-cases (S.same cur S.no_name)) [
    | inl t ↦ rw t (λ q. cc)
    | inr t ↦ elim (Option-cases (find S cur nodes)) [
      | inl e ↦ rw (t, e) (λ q. cc)
      | inr (n, e) ↦
          rw (t, e)
            (walk-ends nodes rank fuel n.parent (out ++ ((cur, n) ∷ [])) ranked
              (λ k. ground (arith, ranked cur n e k, h t)))
    ]
  ]

  -- When the frames can be ranked so that each parent is below its child, which no cycle allows, the
  -- walk of `collect_chain` ends: the rank of the frame is enough fuel.
  pub collect_chain-ends :
      (nodes : Nodes S) (rank : S.Name → ℕ) (fuel : ℕ) (frame : S.Name)
      → Ranked nodes rank
      → rank frame ≤ fuel
      → collect_chain S fuel nodes frame ≢ none
  unfolding collect_chain
  collect_chain-ends nodes rank fuel frame ranked h = elim (Option-cases (find S frame nodes)) [
    | inl e ↦ rw (collect_chain, e) (λ q. cc)
    | inr (n, e) ↦
        rw (collect_chain, e)
          (walk-ends nodes rank fuel n.parent ((frame, n) ∷ []) ranked
            (λ k. ground (arith, ranked frame n e k)))
  ]

module _ (S : Space) where
  -- Two frames, each the parent of the other.
  abbrev pub looped : S.Name → S.Name → Nodes S
  looped a b = register_frame S b a (register_frame S a b [])

module _ (S : Space) (equality : IsEquality S) where
  open equality use {same_refl, same_comm}

  abbrev child_of : S.Name → TfNode S
  child_of parent = record (blank_node S) { parent = parent }

  looped_nodes :
      (a b : S.Name)
      → S.same a b ≡ false
      → looped S a b ≡ ((b, child_of a) ∷ ((a, child_of b) ∷ []))
  unfolding register_frame change
  looped_nodes a b ab =
      let ba : S.same b a ≡ false = same_comm b a ∙ ab in rw (ba, ba, same_refl a, same_refl b) refl

  walks_on :
      (fuel : ℕ) (a b : S.Name) (out : Chain S)
      → S.same a b ≡ false
      → S.same a S.no_name ≡ false
      → S.same b S.no_name ≡ false
      → (walk S ((b, child_of a) ∷ ((a, child_of b) ∷ [])) fuel a out ≡ none)
        × (walk S ((b, child_of a) ∷ ((a, child_of b) ∷ [])) fuel b out ≡ none)
  unfolding walk find
  walks_on zero a b out ab a0 b0 = (rw a0 refl, rw b0 refl)
  walks_on (suc fuel) a b out ab a0 b0 =
      let ba : S.same b a ≡ false = same_comm b a ∙ ab in
      (
        rw (a0, ba, same_refl a) (walks_on fuel a b (out ++ ((a, child_of b) ∷ [])) ab a0 b0).1,
        rw (b0, same_refl b) (walks_on fuel a b (out ++ ((b, child_of a) ∷ [])) ab a0 b0).0,
      )

  -- `register_frame` accepts a cycle: after two frames are registered as each other's parent, the
  -- loop of `collect_chain` has not ended after any number of steps.
  pub cycle_never-ends :
      (fuel : ℕ) (a b : S.Name)
      → S.same a b ≡ false
      → S.same a S.no_name ≡ false
      → S.same b S.no_name ≡ false
      → collect_chain S fuel (looped S a b) a ≡ none
  unfolding collect_chain find
  cycle_never-ends fuel a b ab a0 b0 =
      let ba : S.same b a ≡ false = same_comm b a ∙ ab in
      ap (λ nodes. collect_chain S fuel nodes a) (looped_nodes a b ab)
      ∙ rw (collect_chain, ba, same_refl a) (walks_on fuel a b ((a, child_of b) ∷ []) ab a0 b0).1
