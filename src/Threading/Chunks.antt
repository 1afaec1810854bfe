-- ===== src/Threading/Chunks.antt =====
-- `parallel_for` of libs/threading/include/threading/thread_pool.hpp.
use ddrl_nav2d.Prelude.{
  ℕ, zero, suc, ◌+◌, ◌-◌, ◌*◌, ◌%◌, ◌^◌, ◌≤◌, ◌<◌, ◌≡◌, refl, ap, ◌∙◌, min, ◌∷◌, ◌++◌, map, concat,
  range_from, ltb, leb, ltb→lt, append-nil, ap₂, Bool-cases, inl, inr, arith,
}
use ddrl_nav2d.Threading.Pool.{chunks, chunk_size, indices, parallel_for}

range_from-split :
    (i m n k : ℕ) → k ≡ i + m → range_from i m ++ range_from k n ≡ range_from i (m + n)
range_from-split i zero n k e = ap₂ range_from (omega arith) (omega arith)
range_from-split i (suc m) n k e =
    let e' : suc (m + n) ≡ suc m + n = omega arith in
    ap (◌∷◌ i) (range_from-split (suc i) m n k (omega arith)) ∙ ap (range_from i) e'

-- A first part up to `next`, which may lie beyond the end, and what follows it.
first_and_rest :
    (start stop next : ℕ)
    → start ≤ next
    → start < stop
    → range_from start (min next stop - start) ++ range_from next (stop - next)
      ≡ range_from start (stop - start)
first_and_rest start stop next h less = elim (Bool-cases (leb next stop)) [
  | inl t ↦
      let e : (min next stop - start) + (stop - next) ≡ stop - start = ground (arith, t) in
      let n : next ≡ start + (min next stop - start) = ground (arith, t) in
      range_from-split start (min next stop - start) (stop - next) next n ∙ ap (range_from start) e
  | inr f ↦
      let e : stop - next ≡ 0 = ground (arith, f) in
      let n : min next stop - start ≡ stop - start = ground (arith, f) in
      rw (e, n) (append-nil (range_from start (stop - start)))
]

chunks-cover :
    (fuel start stop chunk : ℕ)
    → 1 ≤ chunk
    → stop + chunk < 2 ^ 64
    → stop - start ≤ fuel
    → concat (map indices (chunks fuel start stop chunk)) ≡ range_from start (stop - start)
unfolding chunks
chunks-cover zero start stop chunk one fits enough =
    let e : 0 ≡ stop - start = omega arith in ap (range_from start) e
chunks-cover (suc fuel) start stop chunk one fits enough = elim (Bool-cases (ltb start stop)) [
  | inr n ↦ let e : 0 ≡ stop - start = ground (arith, n) in rw n (ap (range_from start) e)
  | inl t ↦
      let less = ltb→lt start stop t in
      let next = start + chunk in
      let w : (start + chunk) % 2 ^ 64 ≡ next = omega arith in
      let rest = chunks-cover fuel next stop chunk one fits (omega arith) in
      rw (t, w)
        (ap (λ xs. range_from start (min next stop - start) ++ xs) rest
          ∙ first_and_rest start stop next (omega arith) less)
]

chunk_size-le :
    (count workers grain : ℕ)
    → 1 ≤ count
    → grain ≤ count
    → count + workers + 1 < 2 ^ 64
    → (1 ≤ chunk_size count workers grain) × (chunk_size count workers grain ≤ count + workers)
unfolding chunk_size
chunk_size-le count workers grain one g fits = ground arith

-- When twice the end of the range plus the number of workers fits in 64 bits, `parallel_for` calls
-- its function on exactly the indices of the range, each once, whether it runs serially or in
-- chunks: the chunks laid end to end are the range in order.
pub parallel_for_lem :
    (workers begin stop grain : ℕ)
    → 2 * stop + workers + 1 < 2 ^ 64
    → parallel_for workers begin stop grain ≡ range_from begin (stop - begin)
unfolding parallel_for
parallel_for_lem workers begin stop grain fits = elim (Bool-cases (leb stop begin)) [
  | inl t ↦ let e : 0 ≡ stop - begin = ground (arith, t) in rw t (ap (range_from begin) e)
  | inr f ↦ elim (Bool-cases (leb workers 0)) [
    | inl t ↦ rw (f, t) refl
    | inr w ↦ elim (Bool-cases (leb (stop - begin) grain)) [
      | inl t ↦ rw (f, w, t) refl
      | inr g ↦
          let (low, high) =
            chunk_size-le (stop - begin) workers grain (ground (arith, f)) (ground (arith, g))
              (omega arith) in
          rw (f, w, g)
            (chunks-cover (stop - begin) begin stop (chunk_size (stop - begin) workers grain) low
              (omega arith) (omega arith))
    ]
  ]
]
