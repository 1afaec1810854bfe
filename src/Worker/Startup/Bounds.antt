-- ===== src/Worker/Startup/Bounds.antt =====
-- The bounds that the division of threads in apps/worker/src/worker.cpp keeps.
use ddrl_nav2d.Prelude.{ℕ, ◌+◌, ◌^◌, ◌≤◌, ◌<◌, max, Bool, ◌≡◌, ◌⊎◌, arith}
use ddrl_nav2d.Worker.Startup.{
  Threads, split_threads, add32, hardware_threads, reserved_threads, available_threads, left_beside,
  auto_sim, divide, clamp_to, limit_ray,
}

-- Both counts are at least 1 and fit.
abbrev Fits : ℕ → Threads → Type 0
Fits bound t = (1 ≤ t.sim) × (1 ≤ t.ray) × (t.sim < bound) × (t.ray < bound)

available_pos : (hw reserved : ℕ) → 1 ≤ available_threads hw reserved
unfolding available_threads
available_pos hw reserved = ground arith

left-Fits :
    (hw reserved pinned : ℕ)
    → hw < 2 ^ 31
    → (1 ≤ left_beside hw reserved pinned) × (left_beside hw reserved pinned < 2 ^ 31)
unfolding left_beside
left-Fits hw reserved pinned h = ground arith

auto_lem : (a : ℕ) → 1 ≤ a → (1 ≤ auto_sim a) × (auto_sim a ≤ a)
unfolding auto_sim
auto_lem a h = (omega arith, omega arith)

divide-Fits :
    (hw reserved avail : ℕ) (t : Threads)
    → hw < 2 ^ 31
    → 1 ≤ avail
    → avail < 2 ^ 31
    → t.sim < 2 ^ 16
    → t.ray < 2 ^ 16
    → Fits (2 ^ 31) (divide hw reserved avail t)
unfolding divide
divide-Fits hw reserved avail t h h1 h2 hs hr =
    let (a1, a2) = auto_lem avail h1 in
    let (l1, l2) = left-Fits hw reserved t.ray h in
    let (k1, k2) = left-Fits hw reserved t.sim h in ground arith

clamp_lem :
    (avail : ℕ) (t : Threads)
    → 1 ≤ avail
    → Fits (2 ^ 31) t
    → (1 ≤ (clamp_to avail t).sim)
      × (1 ≤ (clamp_to avail t).ray)
      × ((clamp_to avail t).sim + (clamp_to avail t).ray ≤ max 2 avail)
unfolding clamp_to add32
clamp_lem avail t h (a, b, c, d) = ground arith

hardware_lem :
    (c : ℕ) (viz : Bool)
    → c < 2 ^ 31
    → let hw = hardware_threads c in
      (hw < 2 ^ 31) × (available_threads hw (reserved_threads viz hw) < 2 ^ 31)
unfolding hardware_threads available_threads
hardware_lem c viz h = (omega arith, ground arith)

-- A setting of 0 uses all threads beside the reserved ones, before the ray casts are limited.
auto_fills :
    (c : ℕ) (viz : Bool) (t : Threads)
    → c < 2 ^ 31
    → t.sim < 2 ^ 16
    → t.ray < 2 ^ 16
    → (t.sim ≡ 0) ⊎ (t.ray ≡ 0)
    → let hw = hardware_threads c in
      let reserved = reserved_threads viz hw in
      let avail = available_threads hw reserved in
      let r = clamp_to avail (divide hw reserved avail t) in r.sim + r.ray ≡ max 2 avail
unfolding clamp_to divide left_beside auto_sim available_threads add32 hardware_threads
    reserved_threads
auto_fills c viz t h hs hr z = ground arith

limit_or_all :
    (t : Threads) (avail : ℕ) (d : Threads)
    → ((t.sim ≡ 0) ⊎ (t.ray ≡ 0) → (clamp_to avail d).sim + (clamp_to avail d).ray ≡ max 2 avail)
    → let r = limit_ray (clamp_to avail d) in
      ((1 ≤ t.sim) × (1 ≤ t.ray)) ⊎ ((r.ray ≡ 8) ⊎ (r.sim + r.ray ≡ max 2 avail))
unfolding limit_ray
limit_or_all t avail d h = ground arith

-- Where the machine has fewer than 2 ^ 31 threads and each setting is a `uint16_t`, the division
-- gives each side a thread, the ray casts at most 8, and both together no more than the threads
-- beside the reserved ones, or 2 where there is but one such thread. It uses all of these, unless
-- both settings are above 0 or the ray casts have their limit of 8.
pub split_threads_lem :
    (c : ℕ) (viz : Bool) (t : Threads)
    → c < 2 ^ 31
    → t.sim < 2 ^ 16
    → t.ray < 2 ^ 16
    → let hw = hardware_threads c in
      let avail = available_threads hw (reserved_threads viz hw) in
      let r = split_threads c viz t in
      (1 ≤ r.sim)
      × (1 ≤ r.ray)
      × (r.ray ≤ 8)
      × (r.sim + r.ray ≤ max 2 avail)
      × (((1 ≤ t.sim) × (1 ≤ t.ray)) ⊎ ((r.ray ≡ 8) ⊎ (r.sim + r.ray ≡ max 2 avail)))
unfolding split_threads limit_ray
split_threads_lem c viz t h hs hr =
    let hw = hardware_threads c in
    let reserved = reserved_threads viz hw in
    let avail = available_threads hw reserved in
    let (h1, h2) = hardware_lem c viz h in
    let pos = available_pos hw reserved in
    let d = divide-Fits hw reserved avail t h1 pos h2 hs hr in
    let (s1, r1, sum) = clamp_lem avail (divide hw reserved avail t) pos d in
    (
      s1,
      omega arith,
      omega arith,
      omega arith,
      limit_or_all t avail (divide hw reserved avail t) (auto_fills c viz t h hs hr),
    )
