-- ===== src/Prelude/Perms.antt =====
-- The library's permutations, with the names that this library uses of them, and what they keep.
use Prim.Native.Nat.{suc}
use mathlib.Core.Path.{◌≡◌, refl, ap, subst, ◌∙◌}
use mathlib.Core.List.{List, ◌++◌}
use ddrl_nav2d.Prelude.Lists.{length, All}
use mathlib.Core.List.Permᴰ
pub use mathlib.Core.List.{Perm, Permᴰ, Mem, perm_middle}

module _ {ℓ} {A : Type ℓ} where
  pub length-Permᴰ : {xs ys : List A} → Permᴰ xs ys → length xs ≡ length ys
  length-Permᴰ Permᴰ.nil = refl
  length-Permᴰ (Permᴰ.cons e p) = ap suc (length-Permᴰ p)
  length-Permᴰ (Permᴰ.swap e f) = refl
  length-Permᴰ (Permᴰ.trans p q) = length-Permᴰ p ∙ length-Permᴰ q

  pub All-Permᴰ {κ} : (P : A → Type κ) {xs ys : List A} → Permᴰ xs ys → All P xs → All P ys
  All-Permᴰ P Permᴰ.nil h = h
  All-Permᴰ P (Permᴰ.cons e p) h = (subst P e h.0, All-Permᴰ P p h.1)
  All-Permᴰ P (Permᴰ.swap e f) h = (subst P f h.1.0, (subst P e h.0, h.1.1))
  All-Permᴰ P (Permᴰ.trans p q) h = All-Permᴰ P q (All-Permᴰ P p h)

  pub append-Permᴰ :
      {xs ys zs ws : List A} → Permᴰ xs ys → Permᴰ zs ws → Permᴰ (xs ++ zs) (ys ++ ws)
  append-Permᴰ {ys = ys} {zs = zs} p q =
      Permᴰ.trans (Permᴰ.append_right zs p) (Permᴰ.append_left ys q)
