-- ===== src/Worker/Startup/Tests.antt =====
-- Runs of the division of threads in apps/worker/src/worker.cpp.
use ddrl_nav2d.Prelude.{◌+◌, ◌≤◌, max, ◌≡◌, ◌⊎◌, refl, true, arith}
use ddrl_nav2d.Worker.Startup.{
  Threads, split_threads, add32, hardware_threads, reserved_threads, available_threads, auto_sim,
  divide, clamp_to, limit_ray,
}
use ddrl_nav2d.Worker.Startup.Bounds.{split_threads_lem}

abbrev auto : Threads
auto = record { sim = 0; ray = 0 }

split_sixteen : split_threads 16 true auto ≡ record { sim = 10; ray = 3 }
unfolding split_threads hardware_threads reserved_threads available_threads divide auto_sim clamp_to
    add32 limit_ray
split_sixteen = refl

split_threads_lem_example :
    let r = split_threads 16 true auto in
    let avail =
      available_threads (hardware_threads 16) (reserved_threads true (hardware_threads 16)) in
    (1 ≤ r.sim)
    × (1 ≤ r.ray)
    × (r.ray ≤ 8)
    × (r.sim + r.ray ≤ max 2 avail)
    × (((1 ≤ auto.sim) × (1 ≤ auto.ray)) ⊎ ((r.ray ≡ 8) ⊎ (r.sim + r.ray ≡ max 2 avail)))
split_threads_lem_example = split_threads_lem 16 true auto (omega arith) (omega arith) (omega arith)
