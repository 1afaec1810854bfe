-- ===== src/Frames/History.antt =====
-- The histories of libs/core/src/transform/tf.cpp: their order and their length.
use ddrl_nav2d.Prelude.{
  ℕ, zero, suc, ◌-◌, ◌≤◌, ◌≡◌, refl, true, false, not, List, [], ◌∷◌, ◌++◌, length, drop, All,
  All-append, length-drop, Bool-cases, inl, inr, arith,
}
use ddrl_nav2d.Frames.Buffer.{
  Space, TimedPose, TfNode, Nodes, blank_node, change, keep, register_frame, set_static_transform,
  insert_sample, is_late, trim, add_sample, push_dynamic,
}

-- The order of `double` away from NaN.
pub record IsTime (S : Space) : Type 0 where
  pub lt-eq-not-le : (a b : S.Stamp) → S.lt a b ≡ not (S.le b a)
  pub le_trans : (a b c : S.Stamp) → S.le a b ≡ true → S.le b c ≡ true → S.le a c ≡ true
  pub le_total : (a b : S.Stamp) → S.le a b ≡ false → S.le b a ≡ true

module _ {S : Space} where
  abbrev pub Sorted : List (TimedPose S) → Type 0
  Sorted [] = Unit
  Sorted (p ∷ h) = All (λ (q : TimedPose S). S.le p.stamp q.stamp ≡ true) h × Sorted h

  drop-Sorted : (n : ℕ) (h : List (TimedPose S)) → Sorted h → Sorted (drop n h)
  drop-Sorted zero h s = s
  drop-Sorted (suc n) [] s = tt
  drop-Sorted (suc n) (p ∷ h) s = drop-Sorted n h s.1

  abbrev pub IsValid : TfNode S → Type 0
  IsValid n = Sorted n.history × (length n.history ≤ n.max_hist) × (n.max_hist ≡ 256)

  change-IsValid :
      (f : TfNode S → TfNode S) (name : S.Name) (nodes : Nodes S)
      → ((n : TfNode S) → IsValid n → IsValid (f n))
      → All (λ (e : S.Name × TfNode S). IsValid e.1) nodes
      → All (λ (e : S.Name × TfNode S). IsValid e.1) (change S f name nodes)
  unfolding change
  change-IsValid f name [] k v = (k (blank_node S) (tt, omega arith, refl), tt)
  change-IsValid f name ((key, n) ∷ rest) k v = elim (Bool-cases (S.same key name)) [
    | inl t ↦ rw t (k n v.0, v.1)
    | inr t ↦ rw t (v.0, change-IsValid f name rest k v.1)
  ]

module _ (S : Space) (time : IsTime S) where
  open time use {lt-eq-not-le, le_trans, le_total}

  insert_sample-All :
      (P : TimedPose S → Type 0) (p : TimedPose S) (h : List (TimedPose S))
      → P p
      → All P h
      → All P (insert_sample S p h)
  unfolding insert_sample
  insert_sample-All P p [] hp v = (hp, tt)
  insert_sample-All P p (q ∷ h) hp v = elim (Bool-cases (S.lt p.stamp q.stamp)) [
    | inl t ↦ rw t (hp, v)
    | inr t ↦ rw t (v.0, insert_sample-All P p h hp v.1)
  ]

  below-All :
      (a b : S.Stamp) (h : List (TimedPose S))
      → S.le a b ≡ true
      → All (λ (q : TimedPose S). S.le b q.stamp ≡ true) h
      → All (λ (q : TimedPose S). S.le a q.stamp ≡ true) h
  below-All a b [] l v = tt
  below-All a b (q ∷ h) l v = (le_trans a b q.stamp l v.0, below-All a b h l v.1)

  insert_sample-Sorted :
      (p : TimedPose S) (h : List (TimedPose S)) → Sorted h → Sorted (insert_sample S p h)
  unfolding insert_sample
  insert_sample-Sorted p [] s = (tt, tt)
  insert_sample-Sorted p (q ∷ h) s = elim (Bool-cases (S.lt p.stamp q.stamp)) [
    | inl t ↦
        let l : S.le p.stamp q.stamp ≡ true =
          ground (arith, t, lt-eq-not-le p.stamp q.stamp, le_total q.stamp p.stamp) in
        rw t ((l, below-All p.stamp q.stamp h l s.0), s)
    | inr t ↦
        let l : S.le q.stamp p.stamp ≡ true = ground (arith, t, lt-eq-not-le p.stamp q.stamp) in
        rw t (
          insert_sample-All (λ r. S.le q.stamp r.stamp ≡ true) p h l s.0,
          insert_sample-Sorted p h s.1,
        )
  ]

  not_late-All :
      (p : TimedPose S) (h : List (TimedPose S))
      → Sorted h
      → is_late S p.stamp h ≡ false
      → All (λ (q : TimedPose S). S.le q.stamp p.stamp ≡ true) h
  unfolding is_late
  not_late-All p [] s n = tt
  not_late-All p (q ∷ []) s n = (ground (arith, n, lt-eq-not-le p.stamp q.stamp), tt)
  not_late-All p (q ∷ (r ∷ h)) s n =
      let rest = not_late-All p (r ∷ h) s.1 n in
      (le_trans q.stamp r.stamp p.stamp s.0.0 rest.0, rest)

  append-Sorted :
      (p : TimedPose S) (h : List (TimedPose S))
      → Sorted h
      → All (λ (q : TimedPose S). S.le q.stamp p.stamp ≡ true) h
      → Sorted (h ++ (p ∷ []))
  append-Sorted p [] s v = (tt, tt)
  append-Sorted p (q ∷ h) s v = (
    All-append (λ (r : TimedPose S). S.le q.stamp r.stamp ≡ true) h (p ∷ []) s.0 (v.0, tt),
    append-Sorted p h s.1 v.1,
  )

  add_sample-IsValid :
      (parent : S.Name) (p : TimedPose S) (n : TfNode S)
      → IsValid n
      → IsValid (add_sample S parent p n)
  unfolding add_sample
  add_sample-IsValid parent p n v = elim (Bool-cases (is_late S p.stamp n.history)) [
    | inl t ↦ rw t (kept (insert_sample S p n.history) (insert_sample-Sorted p n.history v.0))
    | inr t ↦ rw t (
        kept (n.history ++ (p ∷ []))
          (append-Sorted p n.history v.0 (not_late-All p n.history v.0 t)))
  ]
    where
      kept :
          (h : List (TimedPose S))
          → Sorted h
          → Sorted (trim S n.max_hist h)
            × (length (trim S n.max_hist h) ≤ n.max_hist)
            × (n.max_hist ≡ 256)
      kept h s = (
        drop-Sorted (length h - n.max_hist) h s,
        omega (arith, length-drop (length h - n.max_hist) h),
        v.2,
      )

-- A call that changes a buffer.
pub data Update (S : Space) : Type 0 where
  register : S.Name → S.Name → Update S
  fix : S.Name → S.Name → S.Pose → Update S
  push : S.Name → S.Name → S.Stamp → S.Pose → Update S

module _ {S : Space} where
  abbrev pub apply : Update S → Nodes S → Nodes S
  apply (Update.register parent child) nodes = register_frame S parent child nodes
  apply (Update.fix parent child t) nodes = set_static_transform S parent child t nodes
  apply (Update.push parent child stamp t) nodes = (push_dynamic S parent child stamp t nodes).1

  abbrev pub apply_all : List (Update S) → Nodes S → Nodes S
  apply_all [] nodes = nodes
  apply_all (u ∷ us) nodes = apply_all us (apply u nodes)

module _ (S : Space) (time : IsTime S) where
  abbrev pub AllValid : Nodes S → Type 0
  AllValid nodes = All (λ (e : S.Name × TfNode S). IsValid e.1) nodes

  apply-AllValid : (u : Update S) (nodes : Nodes S) → AllValid nodes → AllValid (apply u nodes)
  unfolding register_frame set_static_transform push_dynamic
  apply-AllValid (Update.register parent child) nodes v =
      let f : TfNode S → TfNode S = λ n. record n { parent = parent } in
      change-IsValid (keep S) parent (change S f child nodes) (λ n w. w)
        (change-IsValid f child nodes (λ n w. w) v)
  apply-AllValid (Update.fix parent child t) nodes v =
      let f : TfNode S → TfNode S =
        λ n. record n { parent = parent; static_t_parent_child = t; has_static = true } in
      change-IsValid (keep S) parent (change S f child nodes) (λ n w. w)
        (change-IsValid f child nodes (λ n w. w) v)
  apply-AllValid (Update.push parent child stamp t) nodes v =
      let p : TimedPose S = record { stamp = stamp; t_parent_child = t } in
      elim (Bool-cases (S.lt stamp S.zero)) [
        | inl e ↦ rw (apply, e) v
        | inr e ↦
            rw (apply, e)
              (change-IsValid (add_sample S parent p) child nodes
                (add_sample-IsValid S time parent p) v)
      ]

  -- With stamps that `IsTime` orders, so none is NaN, after any sequence of calls on a buffer that
  -- starts empty, late samples and rejected ones included, the history of every frame is sorted by
  -- its stamps, so that `upper_bound` may be used on it, and holds at most 256 samples.
  pub histories-AllValid : (us : List (Update S)) → AllValid (apply_all us [])
  histories-AllValid us = from us [] tt
    where
      from :
          (vs : List (Update S)) (nodes : Nodes S) → AllValid nodes → AllValid (apply_all vs nodes)
      from [] nodes v = v
      from (u ∷ vs) nodes v = from vs (apply u nodes) (apply-AllValid u nodes v)
