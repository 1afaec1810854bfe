-- ===== src/Worker/Publisher/Progress.antt =====
-- The publisher thread drains the queue, and returns when it is told to stop.
use ddrl_nav2d.Prelude.{
  ℕ, zero, suc, ◌+◌, ◌*◌, ◌≡◌, refl, ◌∙◌, true, false, List, [], ◌∷◌, ◌++◌, ◌≤◌, ◌<◌, ◌-◌, ◌⊎◌, ap,
  drop, take, length, length-append, length-drop, drop-nil, concat, append-nil, arith,
}
use ddrl_nav2d.Worker.Publisher.{
  Publisher, Thread, request_stop, join, loop_head, take_batch, publish_batch, thread_at,
  thread_step,
}
use ddrl_nav2d.Worker.Publisher.Schedule.{rounds}
use ddrl_nav2d.Worker.Publisher.Fifo.{history, history-thread_step}

module _ {ℓ} {R : Type ℓ} where
  -- The thread waits, and nobody has asked it to stop.
  abbrev pub IsServing : Publisher R → Type ℓ
  IsServing p = (p.thread ≡ Thread.waiting) × (p.should_stop ≡ false)

  -- What one round leaves.
  record Round (p q : Publisher R) : Type ℓ where
    serving : IsServing q
    batch_size : q.max_batch_rollouts ≡ p.max_batch_rollouts
    rest : q.queue ≡ drop p.max_batch_rollouts p.queue

  taken : Publisher R → List R → Publisher R
  taken p xs = record p {
    thread = Thread.publishing (take p.max_batch_rollouts xs);
    queue = drop p.max_batch_rollouts xs;
  }

  step_waiting :
      (p : Publisher R) (xs : List R)
      → p.thread ≡ Thread.waiting
      → p.queue ≡ xs
      → thread_step p ≡ take_batch p xs
  unfolding thread_step
  step_waiting p xs w e = ap (thread_at p) w ∙ ap (take_batch p) e

  record SameBut (p q : Publisher R) : Type ℓ where
    queue_same : q.queue ≡ p.queue
    stop_same : q.should_stop ≡ p.should_stop
    params_same : q.params ≡ p.params
    at_most_one_more : length q.published ≤ length p.published + 1

  publish_batch-SameBut : (p : Publisher R) (b : List R) → SameBut p (publish_batch p b)
  unfolding publish_batch
  publish_batch-SameBut p [] = ground arith
  publish_batch-SameBut p (r ∷ rs) = ground (arith, length-append p.published ((r ∷ rs) ∷ []))

  Round-thread_step :
      (p : Publisher R) (xs : List R)
      → IsServing p
      → p.queue ≡ xs
      → Round p (thread_step (thread_step p))
  unfolding thread_step thread_at take_batch loop_head taken
  Round-thread_step p [] (w, n) e =
      rw (step_waiting p [] w e) (ground (arith, drop-nil {A = R} p.max_batch_rollouts))
  Round-thread_step p (r ∷ rs) (w, n) e = rw (step_waiting p (r ∷ rs) w e) (
      ground (arith, publish_batch-SameBut (taken p (r ∷ rs)) (take p.max_batch_rollouts (r ∷ rs))))

  history-rounds : (k : ℕ) (p : Publisher R) → history (rounds k p) ≡ history p
  unfolding rounds
  history-rounds zero p = refl
  history-rounds (suc k) p =
      history-rounds k (thread_step (thread_step p))
      ∙ history-thread_step (thread_step p)
      ∙ history-thread_step p

  rounds-drain :
      (k : ℕ) (p : Publisher R)
      → 0 < p.max_batch_rollouts
      → IsServing p
      → length p.queue ≤ k * p.max_batch_rollouts
      → IsServing (rounds k p) × (length (rounds k p).queue ≡ 0)
  unfolding rounds
  rounds-drain zero p h s b = (s, omega arith)
  rounds-drain (suc k) p h s b =
      let q = thread_step (thread_step p) in
      let r : Round p q = Round-thread_step p p.queue s refl in
      let few : length q.queue ≡ length p.queue - p.max_batch_rollouts =
        ap length r.rest ∙ length-drop p.max_batch_rollouts p.queue in
      let size = r.batch_size in
      let smaller : length q.queue ≤ k * q.max_batch_rollouts = rw size (grind arith) in
      rounds-drain k q (omega arith) r.serving smaller

  nil_of_length : (xs : List R) → length xs ≡ 0 → xs ≡ []
  nil_of_length [] e = refl
  nil_of_length (x ∷ xs) e = absurd (omega arith)

  -- Liveness: left alone by the others, a waiting publisher thread whose batch limit is positive
  -- empties a queue of at most k full batches in k rounds, and has then handed over exactly the
  -- rollouts that were queued, after the earlier ones and in order.
  pub drain :
      (k : ℕ) (p : Publisher R)
      → 0 < p.max_batch_rollouts
      → IsServing p
      → length p.queue ≤ k * p.max_batch_rollouts
      → ((rounds k p).queue ≡ []) × (concat (rounds k p).published ≡ concat p.published ++ p.queue)
  drain k p h s b =
      let (serving, none_left) = rounds-drain k p h s b in
      let gone = nil_of_length (rounds k p).queue none_left in
      (gone, ground (arith, history-rounds k p, append-nil (concat (rounds k p).published)))

  stalled_round :
      (p : Publisher R) (xs : List R)
      → p.max_batch_rollouts ≡ 0
      → IsServing p
      → p.queue ≡ xs
      → thread_step (thread_step p) ≡ p
  unfolding thread_step thread_at take_batch publish_batch loop_head
  stalled_round p xs z x3 e = ground arith

  -- With a batch limit of 0, which the configuration accepts, a running publisher hands nothing
  -- over, however long it runs: every round leaves its state as it was, the queue included.
  pub stalled : (k : ℕ) (p : Publisher R) → p.max_batch_rollouts ≡ 0 → IsServing p → rounds k p ≡ p
  unfolding rounds
  stalled zero p z s = refl
  stalled (suc k) p z s = let e = stalled_round p p.queue z s refl in rw e (stalled k p z s)

  record Returned (p q : Publisher R) : Type ℓ where
    returned : q.thread ≡ Thread.idle
    joined : (join q).running ≡ false
    last_batch : length q.published ≤ length p.published + 1
    left : (q.queue ≡ p.queue) ⊎ (q.queue ≡ drop p.max_batch_rollouts p.queue)

  stop_from :
      (p : Publisher R) (t : Thread R) (xs : List R)
      → p.thread ≡ t
      → p.queue ≡ xs
      → p.should_stop ≡ true
      → Returned p (thread_step (thread_step p))
  unfolding thread_step thread_at take_batch loop_head taken join
  stop_from p Thread.idle xs t q s =
      rw (ap (thread_at p) t) (rw (ap (thread_at p) t) (ground arith))
  stop_from p Thread.waiting [] t q s = rw (step_waiting p [] t q) (ground arith)
  stop_from p Thread.waiting (r ∷ rs) t q s = rw (step_waiting p (r ∷ rs) t q) (
      ground (arith, publish_batch-SameBut (taken p (r ∷ rs)) (take p.max_batch_rollouts (r ∷ rs))))
  stop_from p (Thread.publishing b) xs t q s =
      rw (ap (thread_at p) t) (ground (arith, publish_batch-SameBut p b))

  -- Shutdown: after `stop` has set its flag the thread returns within two of its steps, so the join
  -- ends and the publisher is not running; at most one more batch is handed over, and what is
  -- left of the queue stays there.
  pub stop_returns :
      (p : Publisher R)
      → let q = thread_step (thread_step (request_stop p)) in
        (q.thread ≡ Thread.idle)
        × ((join q).running ≡ false)
        × (length q.published ≤ length p.published + 1)
        × ((q.queue ≡ p.queue) ⊎ (q.queue ≡ drop p.max_batch_rollouts p.queue))
  unfolding request_stop
  stop_returns p =
      let r = stop_from (request_stop p) p.thread p.queue refl refl refl in
      (r.returned, r.joined, r.last_batch, r.left)
