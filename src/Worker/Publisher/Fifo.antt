-- ===== src/Worker/Publisher/Fifo.antt =====
-- Nothing is lost, duplicated or reordered between `enqueue` and the handler.
use ddrl_nav2d.Prelude.{
  ◌≡◌, refl, sym, ◌∙◌, ◌⊎◌, true, List, [], ◌∷◌, ◌++◌, take-append-drop, append-nil, append_assoc,
  concat, concat-append, arith, inl, inr, Bool-cases, leb, length,
}
use ddrl_nav2d.Worker.Publisher.{
  Params, Publisher, Thread, init, start, request_stop, join, loop_head, enqueue, take_batch,
  publish_batch, thread_step,
}
use ddrl_nav2d.Worker.Publisher.Schedule.{Event, step, run, accepted, accepted_one, accepted_by}

module _ {ℓ} {R : Type ℓ} where
  abbrev pub batch_of : Thread R → List R
  batch_of Thread.idle = []
  batch_of Thread.waiting = []
  batch_of (Thread.publishing batch) = batch

  -- What the publisher has taken in, oldest first.
  abbrev pub history : Publisher R → List R
  history p = concat p.published ++ (batch_of p.thread ++ p.queue)

  -- A publisher that is not running has no thread.
  abbrev pub IsJoined : Publisher R → Type ℓ
  IsJoined p = (p.running ≡ true) ⊎ (p.thread ≡ Thread.idle)

  history-enqueue :
      (p : Publisher R) (r : R)
      → history (enqueue p r).1 ≡ history p ++ accepted_one (enqueue p r).0 r
  unfolding enqueue
  history-enqueue p r = elim (Bool-cases p.enable_streaming) [
    | inl on ↦ elim (Bool-cases (leb p.max_queue_depth (length p.queue))) [
      | inl full ↦ rw (on, full) (sym (append-nil _))
      | inr room ↦ rw (on, room) (simp append_assoc)
    ]
    | inr off ↦ rw off (sym (append-nil _))
  ]

  history-take_batch :
      (p : Publisher R) (q : List R)
      → batch_of p.thread ≡ []
      → p.queue ≡ q
      → history (take_batch p q) ≡ history p
  unfolding take_batch loop_head
  history-take_batch p [] b e = ground arith
  history-take_batch p (r ∷ rs) b e = ground (arith, take-append-drop p.max_batch_rollouts (r ∷ rs))

  history-publish :
      (p : Publisher R) (batch : List R)
      → p.thread ≡ Thread.publishing batch
      → history (loop_head (publish_batch p batch)) ≡ history p
  unfolding publish_batch loop_head
  history-publish p [] e = ground arith
  history-publish p (r ∷ rs) e = ground (
    arith,
    concat-append p.published ((r ∷ rs) ∷ []),
    append-nil (r ∷ rs),
    append_assoc (concat p.published) (r ∷ rs) p.queue,
  )

  pub history-thread_step : (p : Publisher R) → history (thread_step p) ≡ history p
  unfolding thread_step
  history-thread_step p = go p.thread refl
    where
      go : (t : Thread R) → p.thread ≡ t → history (thread_step p) ≡ history p
      go Thread.idle e = ground arith
      go Thread.waiting e = ground (arith, history-take_batch p p.queue)
      go (Thread.publishing batch) e = ground (arith, history-publish p batch e)

  history-start : (p : Publisher R) → IsJoined p → history (start p) ≡ history p
  unfolding start loop_head
  history-start p j = ground arith

  history-join : (p : Publisher R) → history (join p) ≡ history p
  unfolding join
  history-join p = ground arith

  history-step :
      (p : Publisher R) (e : Event R)
      → IsJoined p
      → history (step p e) ≡ history p ++ accepted_by p e
  unfolding step request_stop
  history-step p Event.starts j = history-start p j ∙ sym (append-nil _)
  history-step p Event.stops j = sym (append-nil _)
  history-step p Event.joins j = history-join p ∙ sym (append-nil _)
  history-step p Event.ticks j = history-thread_step p ∙ sym (append-nil _)
  history-step p (Event.enqueues r) j = history-enqueue p r

  step-IsJoined : (p : Publisher R) (e : Event R) → IsJoined p → IsJoined (step p e)
  unfolding step start request_stop join enqueue thread_step loop_head
  step-IsJoined p e j = ground arith

  history-run :
      (p : Publisher R) (es : List (Event R))
      → IsJoined p
      → history (run p es) ≡ history p ++ accepted p es
  unfolding run accepted
  history-run p [] j = sym (append-nil _)
  history-run p (e ∷ es) j =
      rw (history-run (step p e) es (step-IsJoined p e j), history-step p e j, append_assoc)

-- Whatever the schedule of calls, wake-ups, starts and stops: the rollouts that `enqueue` accepted
-- are, in their order and once each, those of the batches handed to the handler, then those of the
-- batch in the publisher thread's hands, then those in the queue.
pub fifo {ℓ} :
    {R : Type ℓ} (params : Params) (es : List (Event R))
    → let p : Publisher R = run (init params) es in
      accepted (init params) es ≡ concat p.published ++ (batch_of p.thread ++ p.queue)
unfolding init
fifo params es = sym (history-run (init params) es (inr refl))
