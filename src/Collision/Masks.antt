-- ===== src/Collision/Masks.antt =====
-- `build_collision_masks` of libs/collision/src/broad_phase.cpp. `none` is the exception for more than
-- 32 categories; a missing key in `at`, its `std::out_of_range`, reads as `none` too.
use ddrl_nav2d.Prelude.{
  ℕ, suc, ◌^◌, ◌≤◌, ◌<◌, Bool, Option, none, some, List, [], ◌∷◌, if◌then◌else◌, leb, Option-cases,
  inl, inr, arith, subst,
}
use Prim.Native.Nat.{bit_or}
use ddrl_nav2d.Collision.BroadPhase.{find_key}

-- `config::CollisionFilter`
pub record CollisionFilter (Name : Type 0) : Type 0 where
  pub category : Name
  pub collides_with : List Name

pub record CollisionMask : Type 0 where
  pub category_bits : ℕ
  pub mask_bits : ℕ

-- `bit_index` and `next_bit`.
pub record Bits (Name : Type 0) : Type 0 where
  pub bit_index : List (Name × ℕ)
  pub next_bit : ℕ

module _ {Name : Type 0} (same : Name → Name → Bool) where
  -- The bit of a category that has none yet; `none` throws.
  unfoldable pub give_bit : Name → Bits Name → Option (Bits Name)
  give_bit name b = elim (find_key same name b.bit_index) [
    | some i ↦ some b
    | none ↦
        if leb 32 b.next_bit
        then none
        else some
            (record { bit_index = (name, b.next_bit) ∷ b.bit_index; next_bit = suc b.next_bit })
  ]

  unfoldable pub give_bits : List Name → Bits Name → Option (Bits Name)
  give_bits [] b = some b
  give_bits (name ∷ names) b = elim (give_bit name b) [ none ↦ none | some b' ↦ give_bits names b' ]

  -- The first loop.
  unfoldable pub index_filters : List (CollisionFilter Name) → Bits Name → Option (Bits Name)
  unfolding give_bits
  index_filters [] b = some b
  index_filters (f ∷ fs) b = elim (give_bits (f.category ∷ f.collides_with) b) [
    | none ↦ none
    | some b' ↦ index_filters fs b'
  ]

  -- The inner loop of the second.
  unfoldable pub mask_of : List (Name × ℕ) → List Name → ℕ → Option ℕ
  mask_of bits [] mask = some mask
  mask_of bits (name ∷ names) mask = elim (find_key same name bits) [
    | none ↦ none
    | some i ↦ mask_of bits names (bit_or mask (2 ^ i))
  ]

  unfoldable pub filter_mask : List (Name × ℕ) → CollisionFilter Name → Option CollisionMask
  unfolding mask_of
  filter_mask bits f = elim (find_key same f.category bits) [
    | none ↦ none
    | some i ↦ elim (mask_of bits f.collides_with 0) [
      | none ↦ none
      | some mask ↦ some (record { category_bits = 2 ^ i; mask_bits = mask })
    ]
  ]

  unfoldable pub filter_masks :
      List (Name × ℕ) → List (CollisionFilter Name) → Option (List CollisionMask)
  unfolding filter_mask
  filter_masks bits [] = some []
  filter_masks bits (f ∷ fs) = elim (filter_mask bits f) [
    | none ↦ none
    | some m ↦ elim (filter_masks bits fs) [ none ↦ none | some ms ↦ some (m ∷ ms) ]
  ]

  unfoldable pub build_collision_masks : List (CollisionFilter Name) → Option (List CollisionMask)
  unfolding index_filters filter_masks
  build_collision_masks fs = elim (index_filters fs (record { bit_index = []; next_bit = 0 })) [
    | none ↦ none
    | some b ↦ filter_masks b.bit_index fs
  ]

  -- The bits given so far are below the next one, which is at most 32, and no two are the same.
  abbrev pub Below : List (Name × ℕ) → ℕ → Type 0
  Below [] n = Unit
  Below ((name, i) ∷ bits) n = (i < n) × Below bits i

  abbrev pub IsIndexed : Bits Name → Type 0
  IsIndexed b = (b.next_bit ≤ 32) × Below b.bit_index b.next_bit

  abbrev pub Each : Option (Bits Name) → Type 0
  Each none = Unit
  Each (some b) = IsIndexed b

  give_bit-Each : (name : Name) (b : Bits Name) → IsIndexed b → Each (give_bit name b)
  unfolding give_bit
  give_bit-Each name b v = ground arith

  give_bits-Each : (names : List Name) (b : Bits Name) → IsIndexed b → Each (give_bits names b)
  unfolding give_bits
  give_bits-Each [] b v = v
  give_bits-Each (name ∷ names) b v = elim (Option-cases (give_bit name b)) [
    | inl e ↦ rw (give_bits, e) tt
    | inr (b', e) ↦
        rw (give_bits, e) (give_bits-Each names b' (subst Each e (give_bit-Each name b v)))
  ]

  index_filters-Each :
      (fs : List (CollisionFilter Name)) (b : Bits Name) → IsIndexed b → Each (index_filters fs b)
  unfolding index_filters
  index_filters-Each [] b v = v
  index_filters-Each (f ∷ fs) b v =
      let given = give_bits (f.category ∷ f.collides_with) b in
      elim (Option-cases given) [
        | inl e ↦ rw (index_filters, e) tt
        | inr (b', e) ↦
            rw (index_filters, e)
              (index_filters-Each fs b'
                (subst Each e (give_bits-Each (f.category ∷ f.collides_with) b v)))
      ]

  -- Whatever the filters, the first loop either throws for too many categories or gives every
  -- category its own bit: the bits lie below `next_bit`, which is at most 32, and each is below all
  -- those given after it, so that no shift of `1u` overflows and no two categories share a bit.
  pub index_filters-IsIndexed :
      (fs : List (CollisionFilter Name))
      → Each (index_filters fs (record { bit_index = []; next_bit = 0 }))
  index_filters-IsIndexed fs =
      index_filters-Each fs (record { bit_index = []; next_bit = 0 }) (omega arith, tt)
