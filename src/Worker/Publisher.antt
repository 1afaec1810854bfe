-- ===== src/Worker/Publisher.antt =====
-- apps/worker/include/worker/rollout_publisher.hpp and apps/worker/src/rollout_publisher.cpp.
-- `mutex_` makes each of these a single step: `enqueue`; the publisher thread from a wake-up to
-- `lock.unlock()`; and from `lock.lock()` to the next wait. `published` is the list of the batches
-- that the handler was called with, in order. A wake-up by time-out may find the queue empty.
pub mod Schedule
pub mod Fifo
pub mod Bounds
pub mod Progress
use ddrl_nav2d.Prelude.{
  ℕ, ◌++◌, Bool, true, false, List, [], ◌∷◌, length, leb, take, drop, if◌then◌else◌, not,
}

pub record Params : Type 0 where
  pub enable_streaming : Bool
  pub max_queue_depth : ℕ
  pub max_batch_rollouts : ℕ

-- Where `thread_main` stands. `idle`: there is no thread, or it has returned.
pub data Thread {ℓ} (R : Type ℓ) : Type ℓ where
  idle : Thread R
  waiting : Thread R
  publishing : List R → Thread R

pub record Publisher {ℓ} (R : Type ℓ) : Type ℓ where
  pub params : Params
  pub open params use *
  pub queue : List R
  pub running : Bool
  pub should_stop : Bool
  pub thread : Thread R
  pub published : List (List R)

module _ {ℓ} {R : Type ℓ} where
  pub init : Params → Publisher R
  init p = record {
    params = p;
    queue = [];
    running = false;
    should_stop = false;
    thread = Thread.idle;
    published = [];
  }

  -- The loop's test, then `wait_for`.
  loop_head : Publisher R → Publisher R
  loop_head p = record p { thread = if p.should_stop then Thread.idle else Thread.waiting }

  pub start : Publisher R → Publisher R
  unfolding loop_head
  start p =
      if not p.enable_streaming
      then p
      else if p.running
      then p
      else loop_head (record p { should_stop = false; running = true })

  -- `stop()` up to the join.
  pub request_stop : Publisher R → Publisher R
  request_stop p = record p { should_stop = true }

  -- `stop()` from the join on, which waits for the thread to return: until then nothing happens.
  pub join : Publisher R → Publisher R
  join p = elim p.thread [
    | Thread.idle ↦ record p { running = false }
    | Thread.waiting ↦ p
    | Thread.publishing batch ↦ p
  ]

  pub enqueue : Publisher R → R → Bool × Publisher R
  enqueue p rollout =
      if not p.enable_streaming
      then (false, p)
      else if leb p.max_queue_depth (length p.queue)
      then (false, p)
      else (true, record p { queue = p.queue ++ (rollout ∷ []) })

  -- After a wake-up: an empty queue goes back to the loop's test, else a batch is moved out.
  take_batch : Publisher R → List R → Publisher R
  unfolding loop_head
  take_batch p [] = loop_head p
  take_batch p (r ∷ rs) = record p {
    thread = Thread.publishing (take p.max_batch_rollouts (r ∷ rs));
    queue = drop p.max_batch_rollouts (r ∷ rs);
  }

  -- `publish_batch` hands no empty batch to the handler.
  publish_batch : Publisher R → List R → Publisher R
  publish_batch p [] = p
  publish_batch p (r ∷ rs) = record p { published = p.published ++ ((r ∷ rs) ∷ []) }

  thread_at : Publisher R → Thread R → Publisher R
  unfolding take_batch publish_batch loop_head
  thread_at p Thread.idle = p
  thread_at p Thread.waiting = take_batch p p.queue
  thread_at p (Thread.publishing batch) = loop_head (publish_batch p batch)

  -- One step of `thread_main`, from where the thread stands.
  pub thread_step : Publisher R → Publisher R
  unfolding thread_at
  thread_step p = thread_at p p.thread
