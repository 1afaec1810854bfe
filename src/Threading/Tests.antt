-- ===== src/Threading/Tests.antt =====
-- The pool of libs/threading/include/threading/thread_pool.hpp on two workers.
use ddrl_nav2d.Prelude.{ℕ, ◌-◌, ◌≡◌, refl, List, [], ◌∷◌, range_from, arith}
use ddrl_nav2d.Threading.Pool.{
  parallel_for, new_pool, request_stop, worker_step, worker_at, take_task, submit,
}
use ddrl_nav2d.Threading.Chunks.{parallel_for_lem}
use ddrl_nav2d.Threading.Stop.{Event, happen, steps, tasks, stop_drains}

parallel_for_lem_example : parallel_for 4 3 20 2 ≡ range_from 3 (20 - 3)
parallel_for_lem_example = parallel_for_lem 4 3 20 2 (omega arith)

abbrev events : List (Event ℕ)
events =
    Event.submitted 7
    ∷ (Event.stepped 0 ∷ (Event.submitted 8 ∷ (Event.submitted 9 ∷ (Event.stepped 1 ∷ []))))

abbrev schedule : List ℕ
schedule = 0 ∷ (0 ∷ (1 ∷ (1 ∷ (0 ∷ (0 ∷ [])))))

stop_drains_example :
    ((steps (request_stop (happen (new_pool 2) events)) schedule).started ≡ tasks events)
    × ((steps (request_stop (happen (new_pool 2) events)) schedule).task_q ≡ [])
stop_drains_example =
    stop_drains 2 events schedule
      (unfold request_stop worker_step worker_at take_task submit in refl)
