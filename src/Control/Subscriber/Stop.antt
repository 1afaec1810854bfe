-- ===== src/Control/Subscriber/Stop.antt =====
-- When `stop` of apps/worker/src/policy_subscriber.cpp ends the thread.
use ddrl_nav2d.Prelude.{ℕ, ◌≡◌, Bool, true, false, not, ◌&&◌, ◌||◌, List, [], ◌∷◌}
use ddrl_nav2d.Control.Subscriber.{Policies, Place, Input, Subscriber, thread_step}

module _ (P : Policies) where
  -- The places at which `active_context_` points to the thread's context.
  abbrev has_context : Place P → Bool
  has_context (Place.connecting t) = true
  has_context Place.failing = true
  has_context Place.acknowledging = true
  has_context Place.reading = true
  has_context Place.blocked = true
  has_context Place.closing = true
  has_context p = false

  abbrev IsValid : Subscriber P → Type 0
  IsValid s = has_context s.place ≡ s.active_context

  -- How many steps the thread makes at most before it is finished, once it was told to stop.
  abbrev rank : Place P → ℕ
  rank Place.idle = 0
  rank Place.finished = 0
  rank Place.head = 1
  rank Place.waiting = 1
  rank Place.closed = 1
  rank Place.sleeping = 2
  rank Place.closing = 2
  rank Place.failing = 3
  rank Place.reading = 3
  rank Place.acknowledging = 4
  rank (Place.connecting t) = 4
  rank Place.blocked = 5
  rank (Place.targeted t) = 5

  -- The inputs with which the learner lets a call of gRPC return.
  abbrev pub answers : Place P → Input P → Bool
  answers (Place.connecting t) Input.accepted = true
  answers (Place.connecting t) Input.refused = true
  answers (Place.connecting t) Input.ended = true
  answers (Place.connecting t) i = false
  answers Place.blocked (Input.message payload) = true
  answers Place.blocked Input.ended = true
  answers Place.blocked i = false
  answers Place.acknowledging Input.nothing = false
  answers Place.acknowledging i = true
  answers Place.failing Input.ended = true
  answers Place.failing i = false
  answers Place.closing Input.ended = true
  answers Place.closing i = false
  answers p i = true

  -- Every call of gRPC returns, because its context was cancelled or the learner answers.
  abbrev pub answered : List (Input P) → Subscriber P → Bool
  answered [] s = true
  answered (i ∷ is) s = (s.cancelled || answers s.place i) && answered is (thread_step P i s)

  -- Told to stop with its context cancelled: the thread has it still, or will make no other.
  abbrev safe : Place P → Bool → Bool
  safe (Place.targeted t) cancelled = false
  safe p cancelled = not (has_context p) || cancelled

  abbrev Told : Subscriber P → Type 0
  Told s = (s.stop_requested ≡ true) × (safe s.place s.cancelled ≡ true)
