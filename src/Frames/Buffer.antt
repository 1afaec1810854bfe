-- ===== src/Frames/Buffer.antt =====
-- `TfBuffer` of libs/core/src/transform/tf.cpp and `TfNode` of
-- libs/core/include/core/transform/tf.hpp. Names, stamps and poses are the parameter `Space`: strings
-- with their equality, `double` and `Pose3` with the operations that the code calls. The map is an
-- association list. `collect_chain` runs on fuel; `none` is a walk that has not ended.
use ddrl_nav2d.Prelude.{
  ℕ, zero, suc, ◌-◌, Bool, true, false, Option, none, some, List, [], ◌∷◌, ◌++◌, length, drop,
  if◌then◌else◌, ◌==◌,
}

pub record Space : Type 1 where
  pub Name : Type 0
  pub same : Name → Name → Bool
  pub no_name : Name
  pub Stamp : Type 0
  pub lt : Stamp → Stamp → Bool
  pub le : Stamp → Stamp → Bool
  pub sub : Stamp → Stamp → Stamp
  pub div : Stamp → Stamp → Stamp
  pub zero : Stamp
  pub Pose : Type 0
  pub identity : Pose
  pub compose : Pose → Pose → Pose
  pub inverse : Pose → Pose
  pub lerp : Pose → Pose → Stamp → Pose

pub data TfError : Type 0 where
  negative_stamp frame_not_found different_trees : TfError

pub data Result {ℓ} (A : Type ℓ) : Type ℓ where
  ok : A → Result A
  err : TfError → Result A

pub record TimedPose (S : Space) : Type 0 where
  pub stamp : S.Stamp
  pub t_parent_child : S.Pose

pub record TfNode (S : Space) : Type 0 where
  pub parent : S.Name
  pub static_t_parent_child : S.Pose
  pub has_static : Bool
  pub history : List (TimedPose S)
  pub max_hist : ℕ

abbrev pub Nodes : Space → Type 0
Nodes S = List (S.Name × TfNode S)

module _ (S : Space) where
  open S use {Name, Stamp, Pose, same, no_name, identity}

  abbrev pub blank_node : TfNode S
  blank_node = record {
    parent = no_name;
    static_t_parent_child = identity;
    has_static = false;
    history = [];
    max_hist = 256;
  }

  -- `nodes_.find`
  unfoldable pub find : Name → Nodes S → Option (TfNode S)
  find name [] = none
  find name ((k, n) ∷ rest) = if same k name then some n else find name rest

  -- A change of `nodes_[name]`, which puts a blank node there first if there is none.
  unfoldable pub change : (TfNode S → TfNode S) → Name → Nodes S → Nodes S
  change f name [] = (name, f blank_node) ∷ []
  change f name ((k, n) ∷ rest) =
      if same k name then (k, f n) ∷ rest else (k, n) ∷ change f name rest

  abbrev pub keep : TfNode S → TfNode S
  keep n = n

  unfoldable pub register_frame : Name → Name → Nodes S → Nodes S
  unfolding change
  register_frame parent child nodes =
      change keep parent (change (λ n. record n { parent = parent }) child nodes)

  unfoldable pub set_static_transform : Name → Name → Pose → Nodes S → Nodes S
  unfolding change
  set_static_transform parent child t nodes = change keep parent (
      change (λ n. record n { parent = parent; static_t_parent_child = t; has_static = true }) child
        nodes)

  -- `upper_bound` and `insert` on a sorted history: before the first sample that is later.
  unfoldable pub insert_sample : TimedPose S → List (TimedPose S) → List (TimedPose S)
  insert_sample p [] = p ∷ []
  insert_sample p (q ∷ h) = if S.lt p.stamp q.stamp then p ∷ (q ∷ h) else q ∷ insert_sample p h

  -- `!h.empty() && stamp < h.back().stamp`
  unfoldable pub is_late : Stamp → List (TimedPose S) → Bool
  is_late stamp [] = false
  is_late stamp (q ∷ []) = S.lt stamp q.stamp
  is_late stamp (q ∷ (r ∷ h)) = is_late stamp (r ∷ h)

  -- The loop of `pop_front`.
  abbrev pub trim : ℕ → List (TimedPose S) → List (TimedPose S)
  trim max h = drop (length h - max) h

  unfoldable pub add_sample : Name → TimedPose S → TfNode S → TfNode S
  unfolding insert_sample is_late
  add_sample parent p n = record n {
    parent = parent;
    history =
        trim n.max_hist
          (if is_late p.stamp n.history then insert_sample p n.history else n.history ++ (p ∷ []));
  }

  unfoldable pub push_dynamic : Name → Name → Stamp → Pose → Nodes S → Result (Unit {0}) × Nodes S
  unfolding change add_sample
  push_dynamic parent child stamp t nodes =
      if S.lt stamp S.zero then (err negative_stamp, nodes) else (
        ok tt,
        change (add_sample parent (record { stamp = stamp; t_parent_child = t })) child nodes,
      )

  -- The sample at or after which `stamp` lies, and the next one.
  unfoldable pub between : Stamp → TimedPose S → List (TimedPose S) → Pose
  between stamp a [] = a.t_parent_child
  between stamp a (b ∷ h) =
      if S.lt stamp b.stamp
      then S.lerp a.t_parent_child b.t_parent_child
          (S.div (S.sub stamp a.stamp) (S.sub b.stamp a.stamp))
      else between stamp b h

  abbrev pub last_of : TimedPose S → List (TimedPose S) → TimedPose S
  last_of a [] = a
  last_of a (b ∷ h) = last_of b h

  unfoldable pub resolve_history : TfNode S → Stamp → List (TimedPose S) → Pose
  unfolding between
  resolve_history n stamp [] = if n.has_static then n.static_t_parent_child else identity
  resolve_history n stamp (a ∷ h) =
      if S.le stamp a.stamp
      then a.t_parent_child
      else if S.le (last_of a h).stamp stamp
      then (last_of a h).t_parent_child
      else between stamp a h

  unfoldable pub resolve_edge : TfNode S → Stamp → Pose
  unfolding resolve_history
  resolve_edge n stamp = resolve_history n stamp n.history

  abbrev pub Chain : Type 0
  Chain = List (Name × TfNode S)

  -- The walk to the root from a name that may be empty.
  unfoldable pub walk : Nodes S → ℕ → Name → Chain → Option (Result Chain)
  unfolding find
  walk nodes zero cur out = if same cur no_name then some (ok out) else none
  walk nodes (suc fuel) cur out =
      let next = λ (n : TfNode S). walk nodes fuel n.parent (out ++ ((cur, n) ∷ [])) in
      if same cur no_name
      then some (ok out)
      else elim (find cur nodes) [ none ↦ some (err frame_not_found) | some n ↦ next n ]

  unfoldable pub collect_chain : ℕ → Nodes S → Name → Option (Result Chain)
  unfolding find walk
  collect_chain fuel nodes frame = elim (find frame nodes) [
    | none ↦ some (err frame_not_found)
    | some n ↦ walk nodes fuel n.parent ((frame, n) ∷ [])
  ]

  abbrev pub reverse : Chain → Chain → Chain
  reverse [] out = out
  reverse (x ∷ xs) out = reverse xs (x ∷ out)

  -- The length of the common prefix, by names.
  unfoldable pub common : Chain → Chain → ℕ
  common [] ys = 0
  common (x ∷ xs) [] = 0
  common (x ∷ xs) (y ∷ ys) = if same x.0 y.0 then suc (common xs ys) else 0

  unfoldable pub fold_edges : Stamp → Pose → Chain → Pose
  unfolding resolve_edge
  fold_edges stamp t [] = t
  fold_edges stamp t ((name, n) ∷ rest) = fold_edges stamp (S.compose t (resolve_edge n stamp)) rest

  -- The part of `lookup` after the two chains are known, root first.
  unfoldable pub join_chains : Stamp → Chain → Chain → Result Pose
  unfolding common fold_edges
  join_chains stamp up_target up_source =
      let i = common up_target up_source in
      let t_lca_target = fold_edges stamp identity (drop i up_target) in
      let t_lca_source = fold_edges stamp identity (drop i up_source) in
      if i == 0 then err different_trees else ok (S.compose (S.inverse t_lca_target) t_lca_source)

  abbrev pub lookup_chains :
      Stamp → Option (Result Chain) → Option (Result Chain) → Option (Result Pose)
  lookup_chains stamp none source = none
  lookup_chains stamp (some (err e)) source = some (err e)
  lookup_chains stamp (some (ok up_target)) none = none
  lookup_chains stamp (some (ok up_target)) (some (err e)) = some (err e)
  lookup_chains stamp (some (ok up_target)) (some (ok up_source)) =
      some (join_chains stamp (reverse up_target []) (reverse up_source []))

  unfoldable pub lookup : ℕ → Nodes S → Name → Name → Stamp → Option (Result Pose)
  unfolding collect_chain
  lookup fuel nodes target source stamp =
      if same target source
      then some (ok identity)
      else lookup_chains stamp (collect_chain fuel nodes target) (collect_chain fuel nodes source)
