-- ===== src/Threading/Pool.antt =====
-- `ThreadPool` of libs/threading/include/threading/thread_pool.hpp. A worker's step goes from one
-- release of the mutex to the next: it takes a task and leaves the lock, or calls the task, or
-- returns. `started` records the tasks taken, in order; the code keeps no such list. A `size_t`
-- has 64 bits, and its sums wrap.
use ddrl_nav2d.Prelude.{
  ℕ, zero, suc, ◌+◌, ◌-◌, ◌/◌, ◌%◌, ◌^◌, min, max, Bool, true, false, Option, none, some, List, [],
  ◌∷◌, ◌++◌, get_elem?, set, map, concat, range_from, if◌then◌else◌, ltb, leb,
}

pub data Worker {ℓ} (T : Type ℓ) : Type ℓ where
  waiting : Worker T
  calling : T → Worker T
  returned : Worker T

pub record Pool {ℓ} (T : Type ℓ) : Type ℓ where
  pub task_q : List T
  pub workers : List (Worker T)
  pub running : Bool
  pub started : List T

module _ {ℓ} {T : Type ℓ} where
  abbrev pub waiting_workers : ℕ → List (Worker T)
  waiting_workers zero = []
  waiting_workers (suc n) = Worker.waiting ∷ waiting_workers n

  -- `resize` of a pool that is stopped.
  abbrev pub new_pool : ℕ → Pool T
  new_pool n = record { task_q = []; workers = waiting_workers n; running = true; started = [] }

  unfoldable pub submit : T → Pool T → Pool T
  submit t p = record p { task_q = p.task_q ++ (t ∷ []) }

  -- The wait and what follows it: with no task it goes on waiting, or returns after `stop`.
  unfoldable pub take_task : Pool T → ℕ → List T → Pool T
  take_task p i [] = if p.running then p else record p { workers = set p.workers i Worker.returned }
  take_task p i (t ∷ ts) = record p {
    task_q = ts;
    workers = set p.workers i (Worker.calling t);
    started = p.started ++ (t ∷ []);
  }

  unfoldable pub worker_at : Pool T → ℕ → Option (Worker T) → Pool T
  unfolding take_task
  worker_at p i none = p
  worker_at p i (some Worker.waiting) = take_task p i p.task_q
  worker_at p i (some (Worker.calling t)) = record p { workers = set p.workers i Worker.waiting }
  worker_at p i (some Worker.returned) = p

  -- One step of `worker_loop` of worker `i`.
  unfoldable pub worker_step : ℕ → Pool T → Pool T
  worker_step i p = worker_at p i (get_elem? p.workers i)

  -- `stop` up to the joins.
  unfoldable pub request_stop : Pool T → Pool T
  request_stop p = record p { running = false }

  abbrev pub all_returned : List (Worker T) → Bool
  all_returned [] = true
  all_returned (Worker.returned ∷ ws) = all_returned ws
  all_returned (Worker.waiting ∷ ws) = false
  all_returned (Worker.calling t ∷ ws) = false

  -- `stop` from the joins on, which wait until every worker has returned.
  unfoldable pub join : Pool T → Pool T
  join p = if all_returned p.workers then record p { task_q = []; workers = [] } else p

-- The tasks that `parallel_for` submits, as ranges from a start up to a stop; the recursion is on
-- fuel, the number of indices.
unfoldable pub chunks : ℕ → ℕ → ℕ → ℕ → List (ℕ × ℕ)
chunks zero start stop chunk = []
chunks (suc fuel) start stop chunk =
    let rest = chunks fuel ((start + chunk) % 2 ^ 64) stop chunk in
    if ltb start stop then (start, min ((start + chunk) % 2 ^ 64) stop) ∷ rest else []

-- The indices of a task's loop.
abbrev pub indices : ℕ × ℕ → List ℕ
indices (start, stop) = range_from start (stop - start)

-- `chunk` of `parallel_for`, for a number of indices, of workers and a grain.
unfoldable pub chunk_size : ℕ → ℕ → ℕ → ℕ
chunk_size count workers grain =
    let threads = max 1 workers in max grain ((count + threads - 1) % 2 ^ 64 / threads)

-- The indices on which `parallel_for` calls its function: in the calling thread, or by task.
unfoldable pub parallel_for : ℕ → ℕ → ℕ → ℕ → List ℕ
unfolding chunk_size chunks
parallel_for workers begin stop grain =
    let count = stop - begin in
    if leb stop begin
    then []
    else if leb workers 0
    then range_from begin count
    else if leb count grain
    then range_from begin count
    else concat (map indices (chunks count begin stop (chunk_size count workers grain)))
