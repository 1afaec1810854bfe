-- ===== src/Events/Modes.antt =====
-- The delivery modes of an entry: the mailbox of `keep_last == 1`, and the queue with and without a
-- limit.
use ddrl_nav2d.Prelude.{
  ℕ, zero, suc, ◌≤◌, ◌<◌, ◌≡◌, refl, sym, ap, ap₂, ◌∙◌, Bool, true, false, Option, none, some, List,
  [], ◌∷◌, ◌++◌, ◌==◌, ==_refl, map, length, append_assoc, append-nil, arith,
}
use ddrl_nav2d.Events.Channel.{
  SpscQueue, IsFifo, tail, Storage, Channel, no_message, Result, ok, err, find, publish_to,
  publish_with, publish_copy, publish_move, received, enqueue_copy, enqueue_move, dequeue_from,
  dequeue_at, try_dequeue,
}
use ddrl_nav2d.Events.Lookup.{find-update}

module _ {T : Type 0} (S : SpscQueue T) where
  abbrev pub MailboxAt : Channel S → ℕ → Option T → Type 0
  MailboxAt c id slot = find id c ≡ some (record { storage = Storage.mailbox slot; keep_last = 1 })

  abbrev pub QueueAt : Channel S → ℕ → S.Queue → ℕ → Type 0
  QueueAt c id q k = find id c ≡ some (record { storage = Storage.queue q; keep_last = k })

  -- `publish` with a moved message, or with a copied one.
  abbrev pub publish : Bool → Channel S → ℕ → T → Result (Unit {0}) × Channel S
  publish true c id v = publish_move S c id v
  publish false c id v = publish_copy S c id v

  pub publish_all : Channel S → ℕ → List (Bool × T) → Channel S
  publish_all c id [] = c
  publish_all c id ((moved, v) ∷ ms) = publish_all (publish moved c id v).1 id ms

  pub move_all : Channel S → ℕ → List T → Channel S
  move_all c id [] = c
  move_all c id (v ∷ vs) = move_all (publish_move S c id v).1 id vs

  -- Every publication of the list succeeds.
  abbrev pub AllAccepted : Channel S → ℕ → List (Bool × T) → Type 0
  AllAccepted c id [] = Unit
  AllAccepted c id ((b, v) ∷ ms) =
      ((publish b c id v).0 ≡ ok tt) × AllAccepted (publish b c id v).1 id ms

  pub dequeues : ℕ → Channel S → ℕ → List (Result T)
  dequeues zero c id = []
  dequeues (suc n) c id = (try_dequeue S c id).0 ∷ dequeues n (try_dequeue S c id).1 id

  publish-mailbox :
      (c : Channel S) (id : ℕ) (slot : Option T) (moved : Bool) (v : T)
      → MailboxAt c id slot
      → MailboxAt (publish moved c id v).1 id (some v)
  unfolding publish_copy publish_move publish_with publish_to
  publish-mailbox c id slot true v h =
      rw h (rw (find-update id id (Storage.mailbox (some v)) c, ==_refl id, h) refl)
  publish-mailbox c id slot false v h =
      rw h (rw (find-update id id (Storage.mailbox (some v)) c, ==_refl id, h) refl)

  publish_all-mailbox :
      (c : Channel S) (id : ℕ) (slot : Option T) (ms : List (Bool × T)) (moved : Bool) (v : T)
      → MailboxAt c id slot
      → MailboxAt (publish_all c id (ms ++ ((moved, v) ∷ []))) id (some v)
  unfolding publish_all
  publish_all-mailbox c id slot [] moved v h = publish-mailbox c id slot moved v h
  publish_all-mailbox c id slot ((b, w) ∷ ms) moved v h =
      publish_all-mailbox (publish b c id w).1 id (some w) ms moved v
        (publish-mailbox c id slot b w h)

  dequeue-mailbox :
      (c : Channel S) (id : ℕ) (slot : Option T)
      → MailboxAt c id slot
      → ((try_dequeue S c id).0 ≡ received S slot) × MailboxAt (try_dequeue S c id).1 id none
  unfolding try_dequeue dequeue_at dequeue_from
  dequeue-mailbox c id slot h =
      (rw h refl, rw h (rw (find-update id id (Storage.mailbox none) c, ==_refl id, h) refl))

  -- Mailbox mode: after any publications, copied or moved, the last of which is `v`, a dequeue
  -- returns `v`, and the next one finds no message.
  pub mailbox_latest :
      (c : Channel S) (id : ℕ) (slot : Option T) (ms : List (Bool × T)) (moved : Bool) (v : T)
      → MailboxAt c id slot
      → let c' = publish_all c id (ms ++ ((moved, v) ∷ [])) in
        ((try_dequeue S c' id).0 ≡ ok v)
        × ((try_dequeue S (try_dequeue S c' id).1 id).0 ≡ err no_message)
  mailbox_latest c id slot ms moved v h =
      let c' = publish_all c id (ms ++ ((moved, v) ∷ [])) in
      let (got, emptied) =
        dequeue-mailbox c' id (some v) (publish_all-mailbox c id slot ms moved v h) in
      (got, (dequeue-mailbox (try_dequeue S c' id).1 id none emptied).0)

module _ {T : Type 0} (S : SpscQueue T) (F : IsFifo S) where
  open F use {contents, contents-try_enqueue, try_dequeue_head, contents-try_dequeue}

  length-tail : (xs : List T) → length xs ≤ 1 → tail xs ≡ []
  length-tail [] h = refl
  length-tail (x ∷ []) h = refl
  length-tail (x ∷ (y ∷ ys)) h = absurd (omega arith)

  enqueue_move-le_one :
      (q : S.Queue) (k : ℕ) (v : T)
      → 0 < k
      → length (contents q) ≤ 1
      → length (contents (enqueue_move S q k v).1) ≤ 1
  unfolding enqueue_move
  enqueue_move-le_one q k v p h =
      let room = (S.try_dequeue q).1 in
      let vacant : contents room ≡ [] = contents-try_dequeue q ∙ length-tail (contents q) h in
      ground (arith, contents-try_enqueue room v, vacant)

  not_one : (k : ℕ) → 1 < k → (k == 1) ≡ false
  not_one k h = ground arith

  -- In queue mode a publication answers what its use of the queue answers.
  publish_with-queue :
      (enqueue : S.Queue → ℕ → T → Result (Unit {0}) × S.Queue) (c : Channel S) (id : ℕ)
      (q : S.Queue) (k : ℕ) (v : T)
      → QueueAt S c id q k
      → (k == 1) ≡ false
      → ((publish_with S enqueue c id v (find id c)).0 ≡ (enqueue q k v).0)
        × QueueAt S (publish_with S enqueue c id v (find id c)).1 id (enqueue q k v).1 k
  unfolding publish_with publish_to
  publish_with-queue enqueue c id q k v h n = (
    rw (h, n) refl,
    rw (h, n) (rw (find-update id id (Storage.queue (enqueue q k v).1) c, ==_refl id, h) refl),
  )

  -- With `keep_last` above 1, moved messages make room although there is room: starting from a
  -- queue of at most one message, no number of moved publications leaves more than one message in
  -- it, whatever its capacity and `keep_last`.
  pub moved_keeps_one :
      (c : Channel S) (id : ℕ) (q : S.Queue) (k : ℕ) (vs : List T)
      → 1 < k
      → QueueAt S c id q k
      → length (contents q) ≤ 1
      → (q' : S.Queue) × QueueAt S (move_all S c id vs) id q' k × (length (contents q') ≤ 1)
  unfolding move_all publish_move
  moved_keeps_one c id q k [] p h l = (q, h, l)
  moved_keeps_one c id q k (v ∷ vs) p h l =
      moved_keeps_one (publish_move S c id v).1 id (enqueue_move S q k v).1 k vs p
        (publish_with-queue (enqueue_move S) c id q k v h (not_one k p)).1
        (enqueue_move-le_one q k v (omega arith) l)

  record Holds (c : Channel S) (id : ℕ) (xs : List T) : Type 0 where
    q : S.Queue
    at : QueueAt S c id q 0
    held : contents q ≡ xs

  appended :
      (q : S.Queue) (v : T) (xs : List T)
      → contents q ≡ xs
      → (S.try_enqueue q v).0 ≡ true
      → contents (S.try_enqueue q v).1 ≡ xs ++ (v ∷ [])
  appended q v xs e a = contents-try_enqueue q v ∙ rw a (ap (λ ys. ys ++ (v ∷ [])) e)

  -- Without a limit, both uses of the queue are one attempt to enqueue.
  move_accepted :
      (q : S.Queue) (v : T)
      → (enqueue_move S q 0 v).0 ≡ ok tt
      → ((S.try_enqueue q v).0 ≡ true) × ((enqueue_move S q 0 v).1 ≡ (S.try_enqueue q v).1)
  unfolding enqueue_move
  move_accepted q v e = ground arith

  copy_accepted :
      (q : S.Queue) (v : T)
      → (enqueue_copy S q 0 v).0 ≡ ok tt
      → ((S.try_enqueue q v).0 ≡ true) × ((enqueue_copy S q 0 v).1 ≡ (S.try_enqueue q v).1)
  unfolding enqueue_copy
  copy_accepted q v e = ground arith

  publish-Holds :
      (b : Bool) (c : Channel S) (id : ℕ) (v : T) (xs : List T)
      → Holds c id xs
      → (publish S b c id v).0 ≡ ok tt
      → Holds (publish S b c id v).1 id (xs ++ (v ∷ []))
  unfolding publish_copy publish_move
  publish-Holds true c id v xs h e =
      let (said, at) = publish_with-queue (enqueue_move S) c id h.q 0 v h.at refl in
      let (accepted, same) = move_accepted h.q v (sym said ∙ e) in
      record {
        q = (enqueue_move S h.q 0 v).1;
        at = at;
        held = ap contents same ∙ appended h.q v xs h.held accepted;
      }
  publish-Holds false c id v xs h e =
      let (said, at) = publish_with-queue (enqueue_copy S) c id h.q 0 v h.at refl in
      let (accepted, same) = copy_accepted h.q v (sym said ∙ e) in
      record {
        q = (enqueue_copy S h.q 0 v).1;
        at = at;
        held = ap contents same ∙ appended h.q v xs h.held accepted;
      }

  dequeue-Holds :
      (c : Channel S) (id : ℕ) (v : T) (xs : List T)
      → Holds c id (v ∷ xs)
      → ((try_dequeue S c id).0 ≡ ok v) × Holds (try_dequeue S c id).1 id xs
  unfolding try_dequeue dequeue_at dequeue_from
  dequeue-Holds c id v xs h = (
    rw (h.at) (rw (try_dequeue_head h.q, h.held) refl),
    record {
      q = (S.try_dequeue h.q).1;
      at =
          rw (h.at)
            (rw (find-update id id (Storage.queue (S.try_dequeue h.q).1) c, ==_refl id, h.at) refl);
      held = contents-try_dequeue h.q ∙ ap tail h.held;
    },
  )

  publish_all-Holds :
      (c : Channel S) (id : ℕ) (ms : List (Bool × T)) (xs : List T)
      → Holds c id xs
      → AllAccepted S c id ms
      → Holds (publish_all S c id ms) id (xs ++ map (λ m. m.1) ms)
  unfolding publish_all
  publish_all-Holds c id [] xs h a = rw append-nil h
  publish_all-Holds c id ((b, v) ∷ ms) xs h (a, later) =
      rw (append_assoc xs (v ∷ []) (map (λ m. m.1) ms)) at (
        publish_all-Holds (publish S b c id v).1 id ms (xs ++ (v ∷ []))
          (publish-Holds b c id v xs h a) later)

  dequeues-Holds :
      (c : Channel S) (id : ℕ) (xs : List T)
      → Holds c id xs
      → dequeues S (length xs) c id ≡ map ok xs
  unfolding dequeues
  dequeues-Holds c id [] h = refl
  dequeues-Holds c id (x ∷ xs) h =
      let (got, rest) = dequeue-Holds c id x xs h in
      ap₂ ◌∷◌ got (dequeues-Holds (try_dequeue S c id).1 id xs rest)

  -- Queue mode without a limit: when every publication of a list succeeds on an empty queue, as
  -- many dequeues return exactly those messages, in order.
  pub fifo_roundtrip :
      (c : Channel S) (id : ℕ) (q : S.Queue) (ms : List (Bool × T))
      → QueueAt S c id q 0
      → contents q ≡ []
      → AllAccepted S c id ms
      → dequeues S (length (map (λ (m : Bool × T). m.1) ms)) (publish_all S c id ms) id
        ≡ map ok (map (λ (m : Bool × T). m.1) ms)
  fifo_roundtrip c id q ms h e a =
      dequeues-Holds (publish_all S c id ms) id (map (λ m. m.1) ms)
        (publish_all-Holds c id ms [] (record { q = q; at = h; held = e }) a)
