-- ===== src/Events/Channel.antt =====
-- `EventBus::Channel<T>` of libs/events/include/events/event_bus.hpp: one map from entity ids to
-- entries, to which every method of `EventBus` for messages of type `T` forwards. The queue is
-- moodycamel's `ReaderWriterQueue`, which the repository only calls: its operations are the
-- parameter `SpscQueue`, and what its documentation promises is `IsFifo`. An entry is shared by
-- pointer, so a call on an id changes the entry that the map holds for it.
use ddrl_nav2d.Prelude.{
  ℕ, ◌≡◌, Bool, true, false, Option, none, some, List, [], ◌∷◌, ◌++◌, if◌then◌else◌, ◌==◌, ltb,
}

pub record SpscQueue (T : Type 0) : Type 1 where
  pub Queue : Type 0
  pub make : ℕ → Queue
  pub try_enqueue : Queue → T → Bool × Queue
  pub try_dequeue : Queue → Option T × Queue

module _ {ℓ} {T : Type ℓ} where
  abbrev pub head? : List T → Option T
  head? [] = none
  head? (x ∷ xs) = some x

  abbrev pub tail : List T → List T
  tail [] = []
  tail (x ∷ xs) = xs

-- The documented behaviour, by the list of the elements, oldest first: a queue starts empty; an
-- enqueue appends if it answers true and changes nothing if not; a dequeue takes the oldest.
pub record IsFifo {T : Type 0} (S : SpscQueue T) : Type 0 where
  pub contents : S.Queue → List T
  pub contents-make : (cap : ℕ) → contents (S.make cap) ≡ []
  pub contents-try_enqueue :
      (q : S.Queue) (v : T)
      → contents (S.try_enqueue q v).1
        ≡ (if (S.try_enqueue q v).0 then contents q ++ (v ∷ []) else contents q)
  pub try_dequeue_head : (q : S.Queue) → (S.try_dequeue q).0 ≡ head? (contents q)
  pub contents-try_dequeue : (q : S.Queue) → contents (S.try_dequeue q).1 ≡ tail (contents q)

-- The messages of `not_found_err`, `queue_overflow_err`, `already_registered_err` and
-- `no_message_available_err`, and the exception of a wrong `std::get`.
pub data BusError : Type 0 where
  not_found queue_overflow already_registered no_message bad_variant_access : BusError

pub data Result {ℓ} (A : Type ℓ) : Type ℓ where
  ok : A → Result A
  err : BusError → Result A

module _ {T : Type 0} (S : SpscQueue T) where
  pub data Storage : Type 0 where
    queue : S.Queue → Storage
    mailbox : Option T → Storage

module _ {T : Type 0} (S : SpscQueue T) where
  pub record Entry : Type 0 where
    pub storage : Storage S
    pub keep_last : ℕ

  abbrev pub Channel : Type 0
  Channel = List (ℕ × Entry)

module _ {T : Type 0} {S : SpscQueue T} where
  -- `map_.find`
  unfoldable pub find : ℕ → Channel S → Option (Entry S)
  find id [] = none
  find id ((k, e) ∷ rest) = if k == id then some e else find id rest

  -- `map_.erase`
  unfoldable pub erase : ℕ → Channel S → Channel S
  erase id [] = []
  erase id ((k, e) ∷ rest) = if k == id then rest else (k, e) ∷ erase id rest

  -- A write through the shared pointer of an entry.
  unfoldable pub update : ℕ → Storage S → Channel S → Channel S
  update id s [] = []
  update id s ((k, e) ∷ rest) =
      if k == id then (k, record e { storage = s }) ∷ rest else (k, e) ∷ update id s rest

module _ {T : Type 0} (S : SpscQueue T) where
  abbrev pub new_entry : ℕ → ℕ → Entry S
  new_entry cap keep_last = record {
    storage = if keep_last == 1 then Storage.mailbox none else Storage.queue (S.make cap);
    keep_last = keep_last;
  }

  unfoldable pub register_queue : Channel S → ℕ → ℕ → ℕ → Result (Unit {0}) × Channel S
  unfolding find
  register_queue c id cap keep_last = elim (find id c) [
    | some e ↦ (err already_registered, c)
    | none ↦ (ok tt, (id, new_entry cap keep_last) ∷ c)
  ]

  unfoldable pub unregister_queue : Channel S → ℕ → Result (Unit {0}) × Channel S
  unfolding find erase
  unregister_queue c id = elim (find id c) [
    | none ↦ (err not_found, c)
    | some e ↦ (ok tt, erase id c)
  ]

  unfoldable pub is_registered : Channel S → ℕ → Bool
  unfolding find
  is_registered c id = elim (find id c) [ none ↦ false | some e ↦ true ]

  abbrev pub enqueued : Bool → Result (Unit {0})
  enqueued true = ok tt
  enqueued false = err queue_overflow

  -- Queue mode of `publish(id, const T&)`: an old message goes only when the queue is full.
  unfoldable pub enqueue_copy : S.Queue → ℕ → T → Result (Unit {0}) × S.Queue
  enqueue_copy q keep_last v =
      let (accepted, q') = S.try_enqueue q v in
      let (again, q'') = S.try_enqueue (S.try_dequeue q').1 v in
      if accepted
      then (ok tt, q')
      else if ltb 0 keep_last
      then (enqueued again, q'')
      else (err queue_overflow, q')

  -- Queue mode of `publish(id, T&&)`: an old message goes before the enqueue is tried.
  unfoldable pub enqueue_move : S.Queue → ℕ → T → Result (Unit {0}) × S.Queue
  enqueue_move q keep_last v =
      let room = if ltb 0 keep_last then (S.try_dequeue q).1 else q in
      let (accepted, q') = S.try_enqueue room v in (enqueued accepted, q')

  -- A publication to an entry with this storage; `std::get` on the other alternative throws.
  unfoldable pub publish_to :
      (S.Queue → ℕ → T → Result (Unit {0}) × S.Queue)
      → Channel S
      → ℕ
      → T
      → ℕ
      → Storage S
      → Result (Unit {0}) × Channel S
  unfolding update
  publish_to enqueue c id v keep_last (Storage.mailbox old) =
      if keep_last == 1
      then (ok tt, update id (Storage.mailbox (some v)) c)
      else (err bad_variant_access, c)
  publish_to enqueue c id v keep_last (Storage.queue q) =
      if keep_last == 1
      then (err bad_variant_access, c)
      else ((enqueue q keep_last v).0, update id (Storage.queue (enqueue q keep_last v).1) c)

  -- Both overloads, up to the way in which they use the queue.
  unfoldable pub publish_with :
      (S.Queue → ℕ → T → Result (Unit {0}) × S.Queue)
      → Channel S
      → ℕ
      → T
      → Option (Entry S)
      → Result (Unit {0}) × Channel S
  unfolding publish_to
  publish_with enqueue c id v none = (err not_found, c)
  publish_with enqueue c id v (some e) = publish_to enqueue c id v e.keep_last e.storage

  unfoldable pub publish_copy : Channel S → ℕ → T → Result (Unit {0}) × Channel S
  unfolding publish_with enqueue_copy find
  publish_copy c id v = publish_with enqueue_copy c id v (find id c)

  unfoldable pub publish_move : Channel S → ℕ → T → Result (Unit {0}) × Channel S
  unfolding publish_with enqueue_move find
  publish_move c id v = publish_with enqueue_move c id v (find id c)

  abbrev pub received : Option T → Result T
  received none = err no_message
  received (some v) = ok v

  unfoldable pub dequeue_from : Channel S → ℕ → ℕ → Storage S → Result T × Channel S
  unfolding update
  dequeue_from c id keep_last (Storage.mailbox slot) =
      if keep_last == 1
      then (received slot, update id (Storage.mailbox none) c)
      else (err bad_variant_access, c)
  dequeue_from c id keep_last (Storage.queue q) =
      if keep_last == 1
      then (err bad_variant_access, c)
      else (received (S.try_dequeue q).0, update id (Storage.queue (S.try_dequeue q).1) c)

  unfoldable pub dequeue_at : Channel S → ℕ → Option (Entry S) → Result T × Channel S
  unfolding dequeue_from
  dequeue_at c id none = (err not_found, c)
  dequeue_at c id (some e) = dequeue_from c id e.keep_last e.storage

  unfoldable pub try_dequeue : Channel S → ℕ → Result T × Channel S
  unfolding dequeue_at find
  try_dequeue c id = dequeue_at c id (find id c)
