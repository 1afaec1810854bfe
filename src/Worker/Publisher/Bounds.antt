-- ===== src/Worker/Publisher/Bounds.antt =====
-- The queue never exceeds its limit, and every batch that is handed over has a permitted size.
use ddrl_nav2d.Prelude.{
  ◌≡◌, refl, List, [], ◌∷◌, ◌≤◌, ◌<◌, length, length-append, length-take, length-drop, All,
  All-append, arith,
}
use ddrl_nav2d.Worker.Publisher.{
  Params, Publisher, Thread, init, start, request_stop, join, loop_head, enqueue, take_batch,
  publish_batch, thread_step,
}
use ddrl_nav2d.Worker.Publisher.Schedule.{Event, step, run}
use ddrl_nav2d.Worker.Publisher.Fifo.{batch_of}

module _ {ℓ} {R : Type ℓ} (params : Params) where
  abbrev pub IsBatch : List R → Type 0
  IsBatch b = (0 < length b) × (length b ≤ params.max_batch_rollouts)

  pub record IsBounded (p : Publisher R) : Type 0 where
    pub fixed : p.params ≡ params
    pub queued : length p.queue ≤ params.max_queue_depth
    pub in_hand : length (batch_of p.thread) ≤ params.max_batch_rollouts
    pub handed : All IsBatch p.published

  enqueue-IsBounded : (p : Publisher R) (r : R) → IsBounded p → IsBounded (enqueue p r).1
  unfolding enqueue
  enqueue-IsBounded p r v = ground (arith, length-append p.queue (r ∷ []))

  take_batch-IsBounded :
      (p : Publisher R) (q : List R) → IsBounded p → p.queue ≡ q → IsBounded (take_batch p q)
  unfolding take_batch loop_head
  take_batch-IsBounded p [] v e = ground arith
  take_batch-IsBounded p (r ∷ rs) v e =
      ground (
        arith,
        length-take p.max_batch_rollouts (r ∷ rs),
        length-drop p.max_batch_rollouts (r ∷ rs),
      )

  publish-IsBounded :
      (p : Publisher R) (batch : List R)
      → IsBounded p
      → p.thread ≡ Thread.publishing batch
      → IsBounded (loop_head (publish_batch p batch))
  unfolding publish_batch loop_head
  publish-IsBounded p [] v e = ground arith
  publish-IsBounded p (r ∷ rs) v e =
      ground (arith, All-append IsBatch p.published ((r ∷ rs) ∷ []) v.handed)

  thread_step-IsBounded :
      (p : Publisher R) (t : Thread R) → IsBounded p → p.thread ≡ t → IsBounded (thread_step p)
  unfolding thread_step
  thread_step-IsBounded p Thread.idle v e = ground arith
  thread_step-IsBounded p Thread.waiting v e = ground (arith, take_batch-IsBounded p p.queue v refl)
  thread_step-IsBounded p (Thread.publishing batch) v e =
      ground (arith, publish-IsBounded p batch v e)

  step-IsBounded : (p : Publisher R) (e : Event R) → IsBounded p → IsBounded (step p e)
  unfolding step start request_stop join loop_head
  step-IsBounded p Event.starts v = ground arith
  step-IsBounded p Event.stops v = ground arith
  step-IsBounded p Event.joins v = ground arith
  step-IsBounded p Event.ticks v = thread_step-IsBounded p p.thread v refl
  step-IsBounded p (Event.enqueues r) v = enqueue-IsBounded p r v

  run-IsBounded : (p : Publisher R) (es : List (Event R)) → IsBounded p → IsBounded (run p es)
  unfolding run
  run-IsBounded p [] v = v
  run-IsBounded p (e ∷ es) v = run-IsBounded (step p e) es (step-IsBounded p e v)

-- After any schedule the queue holds at most `max_queue_depth` rollouts, and each batch given to
-- the handler holds at least one rollout and at most `max_batch_rollouts`.
pub bounded {ℓ} :
    {R : Type ℓ} (params : Params) (es : List (Event R))
    → let p : Publisher R = run (init params) es in
      (length p.queue ≤ params.max_queue_depth) × All (IsBatch {R = R} params) p.published
unfolding init
bounded {R = R} params es =
    let v =
      run-IsBounded {R = R} params (init params) es
        (record { fixed = refl; queued = omega arith; in_hand = omega arith; handed = tt }) in
    (v.queued, v.handed)
