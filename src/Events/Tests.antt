-- ===== src/Events/Tests.antt =====
-- A queue of two places as a list, and the theorems of the event bus at concrete calls.
use ddrl_nav2d.Prelude.{
  ℕ, ◌≤◌, ◌≡◌, ◌≢◌, refl, Bool, true, false, none, some, List, [], ◌∷◌, ◌++◌, length, ltb,
  if◌then◌else◌, arith,
}
use ddrl_nav2d.Events.Channel.{
  SpscQueue, IsFifo, head?, tail, Storage, Channel, bad_variant_access, ok, find, publish_copy,
  publish_move,
}
use ddrl_nav2d.Events.Valid.{Call, IsValid, call, run, stays-IsValid}
use ddrl_nav2d.Events.Modes.{
  QueueAt, publish_all, move_all, dequeues, moved_keeps_one, fifo_roundtrip,
}

abbrev enqueue_two : List ℕ → ℕ → Bool × List ℕ
enqueue_two q v = if ltb (length q) 2 then (true, q ++ (v ∷ [])) else (false, q)

contents-enqueue_two :
    (q : List ℕ) (v : ℕ) → (enqueue_two q v).1 ≡ (if (enqueue_two q v).0 then q ++ (v ∷ []) else q)
contents-enqueue_two q v = ground arith

abbrev two_places : SpscQueue ℕ
two_places = record {
  Queue = List ℕ;
  make = λ cap. [];
  try_enqueue = enqueue_two;
  try_dequeue = λ q. (head? q, tail q);
}

abbrev two_places_fifo : IsFifo two_places
two_places_fifo = record {
  contents = λ q. q;
  contents-make = λ cap. refl;
  contents-try_enqueue = contents-enqueue_two;
  try_dequeue_head = λ q. refl;
  contents-try_dequeue = λ q. refl;
}

abbrev calls : List (Call ℕ)
calls =
    Call.register 7 4 1
    ∷ Call.register 8 4 0
    ∷ Call.move 7 1
    ∷ Call.copy 8 2
    ∷ Call.unregister 7
    ∷ []

stays-IsValid_example :
    IsValid two_places (run two_places [] calls)
    × ((call two_places (run two_places [] calls) (Call.dequeue 8)).0 ≢ some bad_variant_access)
stays-IsValid_example = stays-IsValid two_places calls (Call.dequeue 8)

abbrev boxes : Channel two_places
boxes =
    (7, record { storage = Storage.mailbox none; keep_last = 1 })
    ∷ (8, record { storage = Storage.queue []; keep_last = 0 })
    ∷ (9, record { storage = Storage.queue []; keep_last = 10 })
    ∷ []

moved_keeps_one_example :
    (q : List ℕ) × QueueAt two_places (move_all two_places boxes 9 (1 ∷ 2 ∷ 3 ∷ [])) 9 q 10
    × (length q ≤ 1)
unfolding find
moved_keeps_one_example =
    moved_keeps_one two_places two_places_fifo boxes 9 [] 10 (1 ∷ 2 ∷ 3 ∷ []) (omega arith) refl
      (omega arith)

fifo_roundtrip_example :
    dequeues two_places 2 (publish_all two_places boxes 8 ((true, 5) ∷ (false, 6) ∷ [])) 8
    ≡ ok 5 ∷ ok 6 ∷ []
unfolding find publish_copy publish_move
fifo_roundtrip_example =
    fifo_roundtrip two_places two_places_fifo boxes 8 [] ((true, 5) ∷ (false, 6) ∷ []) refl refl
      (refl, (refl, tt))
