-- ===== src/Threading/Stop.antt =====
-- `stop` and the workers of libs/threading/include/threading/thread_pool.hpp.
use ddrl_nav2d.Prelude.{
  ℕ, zero, suc, ◌≡◌, refl, sym, ap, ◌∙◌, Bool, true, false, Option, none, some, List, [], ◌∷◌, ◌++◌,
  append_assoc, append-nil, get_elem?, set, Bool-cases, inl, inr,
}
use ddrl_nav2d.Threading.Pool.{
  Worker, Pool, new_pool, waiting_workers, submit, take_task, worker_at, worker_step, request_stop,
}

-- What happens to a pool before `stop`: a task is submitted, or a worker makes a step.
pub data Event {ℓ} (T : Type ℓ) : Type ℓ where
  submitted : T → Event T
  stepped : ℕ → Event T

module _ {ℓ} {T : Type ℓ} where
  abbrev pub happen : Pool T → List (Event T) → Pool T
  happen p [] = p
  happen p (Event.submitted t ∷ es) = happen (submit t p) es
  happen p (Event.stepped i ∷ es) = happen (worker_step i p) es

  abbrev pub tasks : List (Event T) → List T
  tasks [] = []
  tasks (Event.submitted t ∷ es) = t ∷ tasks es
  tasks (Event.stepped i ∷ es) = tasks es

  -- Steps of workers only.
  abbrev pub steps : Pool T → List ℕ → Pool T
  steps p [] = p
  steps p (i ∷ is) = steps (worker_step i p) is

  -- The tasks taken and those that wait, in the order of their submission.
  abbrev log : Pool T → List T
  log p = p.started ++ p.task_q

  take_task-log : (p : Pool T) (i : ℕ) (q : List T) → p.task_q ≡ q → log (take_task p i q) ≡ log p
  unfolding take_task
  take_task-log p i [] e = elim (Bool-cases p.running) [ inl t ↦ rw t refl | inr f ↦ rw f refl ]
  take_task-log p i (t ∷ ts) e = rw (e, append_assoc) refl

  worker_at-log : (p : Pool T) (i : ℕ) (w : Option (Worker T)) → log (worker_at p i w) ≡ log p
  unfolding worker_at
  worker_at-log p i none = refl
  worker_at-log p i (some Worker.waiting) = take_task-log p i p.task_q refl
  worker_at-log p i (some (Worker.calling t)) = refl
  worker_at-log p i (some Worker.returned) = refl

  steps-log : (p : Pool T) (is : List ℕ) → log (steps p is) ≡ log p
  unfolding worker_step
  steps-log p [] = refl
  steps-log p (i ∷ is) = steps-log (worker_step i p) is ∙ worker_at-log p i (get_elem? p.workers i)

  happen-log : (p : Pool T) (es : List (Event T)) → log (happen p es) ≡ log p ++ tasks es
  unfolding worker_step submit
  happen-log p [] = sym (append-nil (log p))
  happen-log p (Event.submitted t ∷ es) = happen-log (submit t p) es ∙ simp append_assoc
  happen-log p (Event.stepped i ∷ es) =
      happen-log (worker_step i p) es
      ∙ ap (λ xs. xs ++ tasks es) (worker_at-log p i (get_elem? p.workers i))

  -- Some worker has returned.
  abbrev pub any_returned : List (Worker T) → Bool
  any_returned [] = false
  any_returned (Worker.returned ∷ ws) = true
  any_returned (Worker.waiting ∷ ws) = any_returned ws
  any_returned (Worker.calling t ∷ ws) = any_returned ws

  -- A worker that has returned found the queue empty.
  abbrev Emptied : Pool T → Type ℓ
  Emptied p = any_returned p.workers ≡ true → p.task_q ≡ []

  any_returned-set :
      (ws : List (Worker T)) (i : ℕ) (w : Worker T)
      → any_returned (w ∷ []) ≡ false
      → any_returned (set ws i w) ≡ true
      → any_returned ws ≡ true
  any_returned-set [] i w h r = r
  any_returned-set (Worker.returned ∷ ws) i w h r = refl
  any_returned-set (Worker.waiting ∷ ws) zero Worker.waiting h r = r
  any_returned-set (Worker.waiting ∷ ws) zero (Worker.calling t) h r = r
  any_returned-set (Worker.waiting ∷ ws) zero Worker.returned h r = cc
  any_returned-set (Worker.waiting ∷ ws) (suc i) w h r = any_returned-set ws i w h r
  any_returned-set (Worker.calling u ∷ ws) zero Worker.waiting h r = r
  any_returned-set (Worker.calling u ∷ ws) zero (Worker.calling t) h r = r
  any_returned-set (Worker.calling u ∷ ws) zero Worker.returned h r = cc
  any_returned-set (Worker.calling u ∷ ws) (suc i) w h r = any_returned-set ws i w h r

  take_task-Emptied :
      (p : Pool T) (i : ℕ) (q : List T) → p.task_q ≡ q → Emptied p → Emptied (take_task p i q)
  unfolding take_task
  take_task-Emptied p i [] e v = elim (Bool-cases p.running) [
    | inl t ↦ rw t v
    | inr f ↦ rw f (λ r. e)
  ]
  take_task-Emptied p i (t ∷ ts) e v = λ r.
      let old = v (any_returned-set p.workers i (Worker.calling t) refl r) in
      let bad : t ∷ ts ≡ [] = sym e ∙ old in cc

  worker_at-Emptied :
      (p : Pool T) (i : ℕ) (w : Option (Worker T)) → Emptied p → Emptied (worker_at p i w)
  unfolding worker_at
  worker_at-Emptied p i none v = v
  worker_at-Emptied p i (some Worker.waiting) v = take_task-Emptied p i p.task_q refl v
  worker_at-Emptied p i (some (Worker.calling t)) v =
      λ r. v (any_returned-set p.workers i Worker.waiting refl r)
  worker_at-Emptied p i (some Worker.returned) v = v

  steps-Emptied : (p : Pool T) (is : List ℕ) → Emptied p → Emptied (steps p is)
  unfolding worker_step
  steps-Emptied p [] v = v
  steps-Emptied p (i ∷ is) v =
      steps-Emptied (worker_step i p) is (worker_at-Emptied p i (get_elem? p.workers i) v)

  -- Before `stop` no worker returns.
  abbrev Running : Pool T → Type 0
  Running p = (p.running ≡ true) × (any_returned p.workers ≡ false)

  set-Running :
      (ws : List (Worker T)) (i : ℕ) (w : Worker T)
      → any_returned (w ∷ []) ≡ false
      → any_returned ws ≡ false
      → any_returned (set ws i w) ≡ false
  set-Running ws i w h k = elim (Bool-cases (any_returned (set ws i w))) [
    | inl t ↦ let r = any_returned-set ws i w h t in cc
    | inr f ↦ f
  ]

  take_task-Running : (p : Pool T) (i : ℕ) (q : List T) → Running p → Running (take_task p i q)
  unfolding take_task
  take_task-Running p i [] (r, v) = rw r (refl, v)
  take_task-Running p i (t ∷ ts) (r, v) = (r, set-Running p.workers i (Worker.calling t) refl v)

  worker_at-Running :
      (p : Pool T) (i : ℕ) (w : Option (Worker T)) → Running p → Running (worker_at p i w)
  unfolding worker_at
  worker_at-Running p i none v = v
  worker_at-Running p i (some Worker.waiting) v = take_task-Running p i p.task_q v
  worker_at-Running p i (some (Worker.calling t)) (r, v) =
      (r, set-Running p.workers i Worker.waiting refl v)
  worker_at-Running p i (some Worker.returned) v = v

  happen-Running : (p : Pool T) (es : List (Event T)) → Running p → Running (happen p es)
  unfolding worker_step submit
  happen-Running p [] v = v
  happen-Running p (Event.submitted t ∷ es) v = happen-Running (submit t p) es v
  happen-Running p (Event.stepped i ∷ es) v =
      happen-Running (worker_step i p) es (worker_at-Running p i (get_elem? p.workers i) v)

module _ {ℓ} (T : Type ℓ) where
  new_pool-Running : (n : ℕ) → any_returned (waiting_workers {T = T} n) ≡ false
  new_pool-Running zero = refl
  new_pool-Running (suc n) = new_pool-Running n

module _ {ℓ} {T : Type ℓ} where
  -- Whatever was submitted and done before `stop`, and however the workers go on after it: as soon
  -- as one worker has returned, every task submitted was taken by a worker, in the order of
  -- submission, and none is left in the queue to be discarded.
  pub stop_drains :
      (n : ℕ) (es : List (Event T)) (is : List ℕ)
      → any_returned (steps (request_stop (happen (new_pool n) es)) is).workers ≡ true
      → ((steps (request_stop (happen (new_pool n) es)) is).started ≡ tasks es)
        × ((steps (request_stop (happen (new_pool n) es)) is).task_q ≡ [])
  unfolding request_stop
  stop_drains n es is h =
      let p = happen (new_pool n) es in
      let (r, v) = happen-Running (new_pool n) es (refl, new_pool-Running T n) in
      let q = steps (request_stop p) is in
      let empty =
        steps-Emptied (request_stop p) is (λ t. let bad : true ≡ false = sym t ∙ v in cc) h in
      let all : q.started ++ q.task_q ≡ tasks es =
        steps-log (request_stop p) is ∙ happen-log (new_pool n) es in
      (sym (append-nil q.started) ∙ ap (λ xs. q.started ++ xs) (sym empty) ∙ all, empty)
