-- ===== src/Worker/Startup.antt =====
-- `Worker::init` of apps/worker/src/worker.cpp, the part that divides the machine's threads between
-- the simulators and the pool of ray casts. The number of threads that
-- `std::thread::hardware_concurrency` answers is an argument. A `uint32_t` sum wraps; every
-- difference is of a smaller number from a larger one.
pub mod Bounds
mod Tests
use ddrl_nav2d.Prelude.{ℕ, ◌+◌, ◌-◌, ◌*◌, ◌/◌, ◌%◌, ◌^◌, min, max, Bool, if◌then◌else◌, ltb, ◌==◌}

-- `n_sim_thr` and `n_ray_thr`
pub record Threads : Type 0 where
  pub sim : ℕ
  pub ray : ℕ

-- The sum of two `uint32_t`.
unfoldable pub add32 : ℕ → ℕ → ℕ
add32 a b = (a + b) % 2 ^ 32

unfoldable pub hardware_threads : ℕ → ℕ
hardware_threads concurrency = max 1 concurrency

unfoldable pub reserved_threads : Bool → ℕ → ℕ
reserved_threads viz_enabled hw = min hw (1 + (if viz_enabled then 1 else 0) + 1)

unfoldable pub available_threads : ℕ → ℕ → ℕ
available_threads hw reserved = if ltb reserved hw then hw - reserved else 1

-- What is left of the threads beside `pinned` ones, at least 1.
unfoldable pub left_beside : ℕ → ℕ → ℕ → ℕ
left_beside hw reserved pinned =
    max 1 (if ltb (add32 reserved pinned) hw then hw - reserved - pinned else 1)

-- The floor of `avail * 0.8` is that of four fifths: the product is exact where the fifths are
-- whole, and its error is far below a fifth elsewhere.
unfoldable pub auto_sim : ℕ → ℕ
auto_sim avail = max 1 (avail * 4 / 5)

-- The three cases, where a setting of 0 asks for a choice.
unfoldable pub divide : ℕ → ℕ → ℕ → Threads → Threads
divide hw reserved avail t =
    if t.sim == 0
    then if t.ray == 0
      then record { sim = auto_sim avail; ray = max 1 (avail - auto_sim avail) }
      else record { sim = left_beside hw reserved t.ray; ray = t.ray }
    else if t.ray == 0
    then record { sim = t.sim; ray = left_beside hw reserved t.sim }
    else t

unfoldable pub clamp_to : ℕ → Threads → Threads
clamp_to avail t =
    if ltb avail (add32 t.sim t.ray)
    then (let ray = max 1 (min t.ray (avail - 1)) in
        record { sim = max 1 (avail - ray); ray = ray })
    else t

unfoldable pub limit_ray : Threads → Threads
limit_ray t = record t { ray = min 8 t.ray }

unfoldable pub split_threads : ℕ → Bool → Threads → Threads
split_threads concurrency viz_enabled t =
    let hw = hardware_threads concurrency in
    let reserved = reserved_threads viz_enabled hw in
    let avail = available_threads hw reserved in
    limit_ray (clamp_to avail (divide hw reserved avail t))
