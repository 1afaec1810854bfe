-- ===== src/Sim/Spawn/Counts.antt =====
-- How often an index stands in the queues and in the set of active objects of
-- libs/sim/src/spawn_manager.cpp, under the operations on them.
use ddrl_nav2d.Prelude.{
  ℕ, zero, suc, ◌+◌, ◌<◌, ◌≡◌, refl, ap, Bool, true, false, List, [], ◌∷◌, ◌++◌, length, get_elem?,
  ◌==◌, arith,
}
use mathlib.Core.Option
use ddrl_nav2d.Sim.Maths.{Maths}
use ddrl_nav2d.Sim.Spawn.{SpawnPriority, QueuedObject, Queues, has, remove, push_entry}
use ddrl_nav2d.Sim.Spawn.Despawn.{modify}

abbrev pub one_if : Bool → ℕ
one_if true = 1
one_if false = 0

abbrev pub count : ℕ → List ℕ → ℕ
count i [] = 0
count i (x ∷ xs) = one_if (i == x) + count i xs

-- How often an index is queued, whichever the priority.
abbrev pub count_entries : {M : Maths} → ℕ → List (QueuedObject M) → ℕ
count_entries i [] = 0
count_entries i (e ∷ es) = one_if (i == e.object_index) + count_entries i es

abbrev pub queued : {M : Maths} → ℕ → Queues M → ℕ
queued i q = count_entries i q.high + count_entries i q.normal + count_entries i q.low

count_entries-push :
    {M : Maths} (i : ℕ) (es : List (QueuedObject M)) (e : QueuedObject M)
    → count_entries i (es ++ (e ∷ [])) ≡ one_if (i == e.object_index) + count_entries i es
count_entries-push i [] e = refl
count_entries-push i (x ∷ xs) e = omega (arith, count_entries-push i xs e)

pub queued-push :
    {M : Maths} (i : ℕ) (p : SpawnPriority) (e : QueuedObject M) (q : Queues M)
    → queued i (push_entry p e q) ≡ one_if (i == e.object_index) + queued i q
queued-push i SpawnPriority.high e q = omega (arith, count_entries-push i q.high e)
queued-push i SpawnPriority.normal e q = omega (arith, count_entries-push i q.normal e)
queued-push i SpawnPriority.low e q = omega (arith, count_entries-push i q.low e)

pub has-count : (i : ℕ) (xs : List ℕ) → count i xs ≡ 0 → has i xs ≡ false
has-count i [] h = refl
has-count i (x ∷ xs) h = ground (arith, has-count i xs)

pub count-has : (i : ℕ) (xs : List ℕ) → has i xs ≡ true → 0 < count i xs
count-has i [] h = ground arith
count-has i (x ∷ xs) h = ground (arith, count-has i xs)

pub count-remove :
    (i x : ℕ) (xs : List ℕ) → has x xs ≡ true → count i xs ≡ one_if (i == x) + count i (remove x xs)
count-remove i x [] h = ground arith
count-remove i x (y ∷ ys) h = ground (arith, count-remove i x ys)

pub length-remove : (x : ℕ) (xs : List ℕ) → has x xs ≡ true → length xs ≡ suc (length (remove x xs))
length-remove x [] h = ground arith
length-remove x (y ∷ ys) h = ground (arith, length-remove x ys)

module _ {ℓ} {A : Type ℓ} where
  pub length-modify : (i : ℕ) (f : A → A) (xs : List A) → length (modify i f xs) ≡ length xs
  length-modify i f [] = refl
  length-modify zero f (x ∷ xs) = refl
  length-modify (suc i) f (x ∷ xs) = ap suc (length-modify i f xs)

  pub get_elem?-modify_other :
      (i j : ℕ) (f : A → A) (xs : List A)
      → (j == i) ≡ false
      → get_elem? (modify i f xs) j ≡ get_elem? xs j
  get_elem?-modify_other i j f [] h = refl
  get_elem?-modify_other zero zero f (x ∷ xs) h = ground arith
  get_elem?-modify_other zero (suc j) f (x ∷ xs) h = refl
  get_elem?-modify_other (suc i) zero f (x ∷ xs) h = refl
  get_elem?-modify_other (suc i) (suc j) f (x ∷ xs) h =
      get_elem?-modify_other i j f xs (ground arith)

  pub get_elem?-modify_self :
      (i : ℕ) (f : A → A) (xs : List A)
      → get_elem? (modify i f xs) i ≡ Option.map f (get_elem? xs i)
  get_elem?-modify_self i f [] = refl
  get_elem?-modify_self zero f (x ∷ xs) = refl
  get_elem?-modify_self (suc i) f (x ∷ xs) = get_elem?-modify_self i f xs
