-- ===== src/Frames/Tests.antt =====
-- The frames of libs/core/src/transform/tf.cpp over natural numbers: names with 0 for the empty
-- string, stamps, and integers modulo 2 for poses.
use ddrl_nav2d.Prelude.{
  ℕ, ◌-◌, ◌≡◌, refl, Bool, true, false, List, [], ◌∷◌, Option, none, some, ltb, leb, ◌==◌, arith,
}
use ddrl_nav2d.Frames.Buffer.{Space, TfNode, Nodes, Chain, blank_node, collect_chain}
use ddrl_nav2d.Frames.History.{IsTime, Update, AllValid, apply_all, histories-AllValid}
use ddrl_nav2d.Frames.Lookup.{IsEquality, looped, cycle_never-ends}

-- Addition modulo 2.
abbrev xor : Bool → Bool → Bool
xor true true = false
xor true false = true
xor false b = b

abbrev flips : Space
flips = record {
  Name = ℕ;
  same = ◌==◌;
  no_name = 0;
  Stamp = ℕ;
  lt = ltb;
  le = leb;
  sub = ◌-◌;
  div = λ a b. a;
  zero = 0;
  Pose = Bool;
  identity = false;
  compose = xor;
  inverse = λ a. a;
  lerp = λ a b t. a;
}

flips-IsEquality : IsEquality flips
flips-IsEquality = record { same_refl = λ a. ground arith; same_comm = λ a b. ground arith }

flips-IsTime : IsTime flips
flips-IsTime = record {
  lt-eq-not-le = λ a b. ground arith;
  le_trans = λ a b c h k. ground arith;
  le_total = λ a b h. ground arith;
}

abbrev calls : List (Update flips)
calls =
    Update.push 1 2 5 true
    ∷ (Update.push 1 2 3 false ∷ (Update.register 1 3 ∷ (Update.fix 3 4 true ∷ [])))

histories-AllValid_example : AllValid flips flips-IsTime (apply_all calls [])
histories-AllValid_example = histories-AllValid flips flips-IsTime calls

abbrev child : ℕ → Bool → TfNode flips
child parent t = record (blank_node flips) {
  parent = parent;
  static_t_parent_child = t;
  has_static = true;
}

-- Frames 2 and 3 below the root 1.
abbrev tree : Nodes flips
tree = (2, child 1 true) ∷ ((1, blank_node flips) ∷ ((3, child 1 false) ∷ []))

abbrev up : ℕ → Bool → Chain flips
up name t = (name, child 1 t) ∷ ((1, blank_node flips) ∷ [])

-- The same chains, root first.
abbrev down : ℕ → Bool → Chain flips
down name t = (1, blank_node flips) ∷ ((name, child 1 t) ∷ [])

abbrev parent_of : Option (TfNode flips) → ℕ
parent_of none = 0
parent_of (some n) = n.parent

abbrev pair : Nodes flips
pair = (2, child 1 true) ∷ []

cycle_never-ends_example : collect_chain flips 9 (looped flips 1 2) 1 ≡ none
cycle_never-ends_example = cycle_never-ends flips flips-IsEquality 9 1 2 refl refl refl
