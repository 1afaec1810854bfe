-- ===== src/Collision/Builds.antt =====
-- The recursion `build_recursive` of libs/collision/src/bvh.cpp, by induction on its fuel.
use ddrl_nav2d.Prelude.{
  ℕ, zero, suc, ◌+◌, ◌*◌, ◌/◌, ◌%◌, ◌^◌, ◌≤◌, ◌<◌, ◌≡◌, refl, sym, ◌∙◌, subst, List, [], ◌∷◌, ◌++◌,
  length, take, drop, length-take, length-drop, length-append, set-append, append_assoc,
  take-append-drop, All, All-take, All-drop, arith, false, leb, Bool,
}
use ddrl_nav2d.Prelude.Perms.{Permᴰ, length-Permᴰ, All-Permᴰ, append-Permᴰ}
use mathlib.Core.List.Permᴰ
use ddrl_nav2d.Collision.Bounds.{Double, longest_axis}
use ddrl_nav2d.Collision.Tree.{
  k_invalid, Node, Instance, Build, bounds_at, before, close_node, build_body, build_children,
  build_recursive,
}
use ddrl_nav2d.Collision.Shape.{Shape, size, indices, size-indices, layout, length-layout, assign}
use ddrl_nav2d.Collision.Layout.{merge_range-some, opened, node_index-lt, close_branch}

-- A call at position `k` answers `k`, appends the layout of a tree over the indices of the range, and
-- records where their leaves are.
pub record Built (D : Double) {Pose : Type 0} (leaves : List (Instance D Pose)) (k : ℕ)
    (range : List ℕ) (parent : ℕ) (st : Build D) (out : ℕ × Build D) : Type 0 where
  pub tree : Shape
  pub covers : Permᴰ (indices tree) range
  pub result : out ≡ (
    k,
    record {
      nodes = st.nodes ++ layout D leaves tree k parent;
      leaf_nodes = assign tree k st.leaf_nodes;
    },
  )

module _ (D : Double) {Pose : Type 0} (nth_element : (ℕ → ℕ → Bool) → ℕ → List ℕ → List ℕ)
    (capacity : ℕ) (leaves : List (Instance D Pose))
    (permutes : (cmp : ℕ → ℕ → Bool) (n : ℕ) (xs : List ℕ) → Permᴰ (nth_element cmp n xs) xs) where
  -- Room for the nodes of `n` leaves after `k` nodes.
  abbrev pub Fits : ℕ → ℕ → Type 0
  Fits k n = (k + 2 * n ≤ suc capacity) × (k + 2 * n ≤ k_invalid)

  abbrev InRange : List ℕ → Type 0
  InRange is = All (λ i. i < length leaves) is

  -- What a call on a range of at most `n` indices does.
  abbrev Builds : ℕ → (List ℕ → ℕ → Build D → ℕ × Build D) → Type 0
  Builds n self =
      (range : List ℕ) (parent k : ℕ) (st : Build D)
      → 1 ≤ length range
      → length range ≤ n
      → InRange range
      → k ≡ length st.nodes
      → Fits k (length range)
      → Built D leaves k range parent st (self range parent st)

  abbrev body : (List ℕ → ℕ → Build D → ℕ × Build D) → List ℕ → ℕ → Build D → ℕ × Build D
  body = build_body D nth_element capacity leaves

  one-Built :
      (self : List ℕ → ℕ → Build D → ℕ × Build D) (i parent k : ℕ) (st : Build D)
      → i < length leaves
      → k ≡ length st.nodes
      → Fits k 1
      → Built D leaves k (i ∷ []) parent st (body self (i ∷ []) parent st)
  unfolding build_body
  one-Built self i parent k st h e fits = record {
    tree = Shape.leaf i;
    covers = Permᴰ.refl (i ∷ []);
    result =
        let a : leb capacity (length st.nodes) ≡ false = ground arith in
        let b : leb (length leaves) i ≡ false = ground arith in
        rw (a, b, set-append, e, node_index-lt (length st.nodes) (omega arith)) refl;
  }

  abbrev build_halves :
      (List ℕ → ℕ → Build D → ℕ × Build D) → ℕ → ℕ → ℕ → List ℕ → Build D → ℕ × Build D
  build_halves = build_children D nth_element capacity leaves

  -- The writes of the two halves, by what their calls answer.
  build_children_lem :
      (self : List ℕ → ℕ → Build D → ℕ × Build D) (parent mid : ℕ) (range : List ℕ)
      (ns L R : List (Node D)) (at at₁ at₂ : List ℕ) (left right : ℕ)
      → let k = length ns in
        k % 2 ^ 32 ≡ k
        → self
            (take mid range)
            k
            (record { nodes = ns ++ (opened D parent k_invalid k_invalid ∷ []); leaf_nodes = at })
          ≡ (
            left,
            record {
              nodes = (ns ++ (opened D parent k_invalid k_invalid ∷ [])) ++ L;
              leaf_nodes = at₁;
            },
          )
        → self
            (drop mid range)
            k
            (record { nodes = ns ++ (opened D parent left k_invalid ∷ L); leaf_nodes = at₁ })
          ≡ (
            right,
            record { nodes = (ns ++ (opened D parent left k_invalid ∷ L)) ++ R; leaf_nodes = at₂ },
          )
        → build_halves self k parent mid range
            (record { nodes = ns ++ (opened D parent k_invalid k_invalid ∷ []); leaf_nodes = at })
          ≡ close_node D k left right
              (record { nodes = ns ++ (opened D parent left right ∷ (L ++ R)); leaf_nodes = at₂ })
  unfolding build_children
  build_children_lem self parent mid range ns L R at at₁ at₂ left right w l r =
      rw (w, l, append_assoc, set-append, r, append_assoc, set-append) refl

  -- The two halves of a range, one after the other.
  children-Built :
      (self : List ℕ → ℕ → Build D → ℕ × Build D) (n mid : ℕ) (range : List ℕ) (parent : ℕ)
      (st : Build D)
      → Builds n self
      → 1 ≤ mid
      → mid < length range
      → length range ≤ suc n
      → InRange range
      → Fits (length st.nodes) (length range)
      → let k = length st.nodes in
        Built D leaves k range parent st (
          build_halves self k parent mid range
            (record st { nodes = st.nodes ++ (opened D parent k_invalid k_invalid ∷ []) }))
  children-Built self n mid range parent st ih one less enough inside fits =
      let k = length st.nodes in
      let nl = length-take mid range in
      let nr = length-drop mid range in
      let blank = opened D parent k_invalid k_invalid in
      let st₁ : Build D = record st { nodes = st.nodes ++ (blank ∷ []) } in
      let l =
        ih (take mid range) k (suc k) st₁ (omega arith) (omega arith)
          (All-take (λ i. i < length leaves) mid range inside)
          (omega (arith, length-append st.nodes (blank ∷ []))) (omega arith, omega arith) in
      let L = layout D leaves l.tree (suc k) k in
      let sl = size-indices l.tree in
      let cl = length-Permᴰ l.covers in
      let half = opened D parent (suc k) k_invalid in
      let at₁ = assign l.tree (suc k) st.leaf_nodes in
      let m = suc k + size l.tree in
      let r =
        ih (drop mid range) k m (record { nodes = st.nodes ++ (half ∷ L); leaf_nodes = at₁ })
          (omega arith) (omega arith) (All-drop (λ i. i < length leaves) mid range inside)
          (omega
            (arith, length-append st.nodes (half ∷ L), length-layout D leaves l.tree (suc k) k))
          (omega arith, omega arith) in
      let sr = size-indices r.tree in
      let cr = length-Permᴰ r.covers in
      record {
        tree = Shape.branch l.tree r.tree;
        covers =
            subst (Permᴰ (indices l.tree ++ indices r.tree)) (take-append-drop mid range)
              (append-Permᴰ l.covers r.covers);
        result =
            build_children_lem self parent mid range st.nodes L (layout D leaves r.tree m k)
              st.leaf_nodes at₁ (assign r.tree m at₁) (suc k) m (node_index-lt k (omega arith))
              l.result r.result
            ∙ close_branch D leaves st.nodes l.tree r.tree parent (assign r.tree m at₁)
                (omega arith);
      }

  -- A range of at least two indices.
  more-Built :
      (self : List ℕ → ℕ → Build D → ℕ × Build D) (n i j : ℕ) (rest : List ℕ) (parent : ℕ)
      (st : Build D)
      → Builds n self
      → length (i ∷ (j ∷ rest)) ≤ suc n
      → InRange (i ∷ (j ∷ rest))
      → Fits (length st.nodes) (length (i ∷ (j ∷ rest)))
      → Built D leaves
          (length st.nodes)
          (i ∷ (j ∷ rest))
          parent
          st
          (body self (i ∷ (j ∷ rest)) parent st)
  unfolding build_body
  more-Built self n i j rest parent st ih enough h fits =
      let (bounds, merged) = merge_range-some D leaves (bounds_at D leaves i) (j ∷ rest) h.1 in
      let cmp = before D leaves (longest_axis D bounds) in
      let mid = length (i ∷ (j ∷ rest)) / 2 in
      let range = nth_element cmp mid (i ∷ (j ∷ rest)) in
      let p = permutes cmp mid (i ∷ (j ∷ rest)) in
      let size : length range ≡ suc (suc (length rest)) = length-Permᴰ p in
      let a : leb capacity (length st.nodes) ≡ false = ground arith in
      let b =
        children-Built self n mid range parent st ih (omega arith) (omega arith) (omega arith)
          (All-Permᴰ (λ i. i < length leaves) (Permᴰ.symm p) h) (omega arith, omega arith) in
      record { tree = b.tree; covers = Permᴰ.trans b.covers p; result = rw (a, merged) b.result }

  pub build_recursive-Built : (n : ℕ) → Builds n (build_recursive D nth_element capacity leaves n)
  unfolding build_recursive
  build_recursive-Built zero range parent k st one enough h e fits = ground arith
  build_recursive-Built (suc n) [] parent k st one enough h e fits = ground arith
  build_recursive-Built (suc n) (i ∷ []) parent k st one enough h e fits =
      one-Built (build_recursive D nth_element capacity leaves n) i parent k st h.0 e fits
  build_recursive-Built (suc n) (i ∷ (j ∷ rest)) parent k st one enough h e fits =
      let self = build_recursive D nth_element capacity leaves n in
      let f : Fits (length st.nodes) (length (i ∷ (j ∷ rest))) = (omega arith, omega arith) in
      subst
        (λ k. Built D leaves k (i ∷ (j ∷ rest)) parent st (body self (i ∷ (j ∷ rest)) parent st))
        (sym e) (more-Built self n i j rest parent st (build_recursive-Built n) enough h f)
