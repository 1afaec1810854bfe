-- ===== src/Worker/Publisher/Schedule.antt =====
-- Schedules: the calls of the simulator threads and of the owner, interleaved with the steps of the
-- publisher thread, in any order.
use ddrl_nav2d.Prelude.{ℕ, Bool, true, false, List, [], ◌∷◌, ◌++◌, zero, suc}
use ddrl_nav2d.Worker.Publisher.{Publisher, start, request_stop, join, enqueue, thread_step}

pub data Event {ℓ} (R : Type ℓ) : Type ℓ where
  starts stops joins ticks : Event R
  enqueues : R → Event R

module _ {ℓ} {R : Type ℓ} where
  unfoldable pub step : Publisher R → Event R → Publisher R
  step p Event.starts = start p
  step p Event.stops = request_stop p
  step p Event.joins = join p
  step p Event.ticks = thread_step p
  step p (Event.enqueues r) = (enqueue p r).1

  unfoldable pub run : Publisher R → List (Event R) → Publisher R
  run p [] = p
  run p (e ∷ es) = run (step p e) es

  abbrev pub accepted_one : Bool → R → List R
  accepted_one true r = r ∷ []
  accepted_one false r = []

  abbrev pub accepted_by : Publisher R → Event R → List R
  accepted_by p (Event.enqueues r) = accepted_one (enqueue p r).0 r
  accepted_by p _ = []

  -- The rollouts for which `enqueue` returned true, in order.
  unfoldable pub accepted : Publisher R → List (Event R) → List R
  accepted p [] = []
  accepted p (e ∷ es) = accepted_by p e ++ accepted (step p e) es

  -- A round of the publisher thread: it takes a batch, and hands it over.
  unfoldable pub rounds : ℕ → Publisher R → Publisher R
  rounds zero p = p
  rounds (suc n) p = rounds n (thread_step (thread_step p))
