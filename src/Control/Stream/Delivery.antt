-- ===== src/Control/Stream/Delivery.antt =====
-- Where and under which numbers `RolloutStreamClient` of
-- apps/worker/src/rollout_stream_client.cpp delivers, and what a failure leaves behind.
use ddrl_nav2d.Prelude.{
  ℕ, suc, ◌+◌, ◌%◌, ◌^◌, ◌≤◌, ◌<◌, ◌≡◌, refl, Bool, true, false, List, [], ◌∷◌, All, Option, none,
  some, length, if-both, arith,
}
use ddrl_nav2d.Worker.SimLoop.{Rollout}
use ddrl_nav2d.Control.Stream.{
  Comm, Sent, Client, Call, opened, ensure_stream_at, after_write, write_batch, send_on, send, call,
  calls, new_client, to_proto_batch,
}

module _ (C : Comm) where
  OnTarget : Option C.Target → C.Target → Type 0
  OnTarget none target = Unit
  OnTarget (some to) target = to ≡ target

  -- The open stream leads to the target, and so did each batch that was sent; their numbers fall from
  -- the last to the first, and none is above the counter.
  abbrev pub Falling : List (Sent C) → Type 0
  Falling [] = Unit
  Falling (m ∷ ms) = All (λ k. k.batch.batch_id < m.batch.batch_id) ms × Falling ms

  record IsSound (c : Client C) : Type 0 where
    pub on_target : OnTarget c.stream c.target
    pub delivered : All (λ m. m.stream_target ≡ m.wanted_target) c.sent
    pub numbered : All (λ m. m.batch.batch_id ≤ c.batch_sequence) c.sent
    pub falling : Falling c.sent

  raise :
      (n k : ℕ) (ms : List (Sent C))
      → n < k
      → All (λ m. m.batch.batch_id ≤ n) ms
      → All (λ m. m.batch.batch_id < k) ms × All (λ m. m.batch.batch_id ≤ k) ms
  raise n k [] h a = (tt, tt)
  raise n k (m ∷ ms) h a =
      let (x, y) = raise n k ms h a.1 in ((omega (arith, a.0), x), (omega (arith, a.0), y))

  -- The stream and the network are all that opening changes.
  Ready : Client C → Client C → Type 0
  Ready c next = (next.batch_sequence ≡ c.batch_sequence) × IsSound next

  opened-Ready : (made : Bool × C.Net) (c : Client C) → IsSound c → Ready c (opened C made c).1
  unfolding Ready OnTarget
  opened-Ready (true, net) c s = (
    refl,
    record {
      on_target = refl;
      delivered = s.delivered;
      numbered = s.numbered;
      falling = s.falling;
    },
  )
  opened-Ready (false, net) c s = (
    refl,
    record { on_target = tt; delivered = s.delivered; numbered = s.numbered; falling = s.falling },
  )

  ensure-Ready :
      (stream : Option C.Target) (c : Client C)
      → IsSound c
      → Ready c (ensure_stream_at C stream c).1
  unfolding Ready
  ensure-Ready (some to) c s = (refl, s)
  ensure-Ready none c s =
      if-both (λ r. Ready c r.1) (C.is_empty c.target) {x = (false, c)}
        {y = opened C (C.open_stream c.target c.net) c} (refl, s)
        (opened-Ready (C.open_stream c.target c.net) c s)

  -- Sound again, with the counter at most one higher.
  Next : ℕ → Client C → Type 0
  Next n next = (next.batch_sequence ≤ suc n) × IsSound next

  after_write-Next :
      (written : Bool × C.Net) (batch : List (Rollout C.payload)) (now : ℕ) (to : C.Target)
      (c : Client C)
      → suc c.batch_sequence < 2 ^ 64
      → to ≡ c.target
      → IsSound c
      → Next c.batch_sequence
          (after_write C written batch
            (to_proto_batch C batch ((c.batch_sequence + 1) % 2 ^ 64) now c.architecture)
            to
            (record c { batch_sequence = (c.batch_sequence + 1) % 2 ^ 64 })).1
  unfolding OnTarget Next
  after_write-Next (true, net) batch now to c r e s =
      let next = (c.batch_sequence + 1) % 2 ^ 64 in
      let higher = raise c.batch_sequence next c.sent (omega arith) s.numbered in
      (
        omega arith,
        record {
          on_target = s.on_target;
          delivered = (e, s.delivered);
          numbered = (omega arith, higher.1);
          falling = (higher.0, s.falling);
        },
      )
  after_write-Next (false, net) batch now to c r e s =
      let next = (c.batch_sequence + 1) % 2 ^ 64 in
      let higher = raise c.batch_sequence next c.sent (omega arith) s.numbered in
      (
        omega arith,
        record {
          on_target = tt;
          delivered = s.delivered;
          numbered = higher.1;
          falling = s.falling;
        },
      )

  write_batch-Next :
      (batch : List (Rollout C.payload)) (stream : Option C.Target) (c : Client C)
      → suc c.batch_sequence < 2 ^ 64
      → OnTarget stream c.target
      → IsSound c
      → Next c.batch_sequence (write_batch C batch stream c).1
  unfolding OnTarget Next
  write_batch-Next batch none c r e s = (omega arith, s)
  write_batch-Next batch (some to) c r e s =
      after_write-Next (C.write _ c.net) batch (C.system_now_ms c.net) to c r e s

  send_on-Next :
      (batch : List (Rollout C.payload)) (ready : Bool × Client C)
      → suc ready.1.batch_sequence < 2 ^ 64
      → IsSound ready.1
      → Next ready.1.batch_sequence (send_on C batch ready).1
  unfolding Next
  send_on-Next batch (false, c) r s = (omega arith, s)
  send_on-Next batch (true, c) r s = write_batch-Next batch c.stream c r s.on_target s

  send-Next :
      (batch : List (Rollout C.payload)) (c : Client C)
      → suc c.batch_sequence < 2 ^ 64
      → IsSound c
      → Next c.batch_sequence (send C batch c).1
  unfolding send Ready Next
  send-Next [] c r s = (omega arith, s)
  send-Next (x ∷ xs) c r s =
      let ready = ensure-Ready c.stream c s in
      let ensured = ensure_stream_at C c.stream c in
      let done = send_on-Next (x ∷ xs) ensured (omega (arith, ready.0)) ready.1 in
      if-both (λ t. Next c.batch_sequence t.1) (C.is_empty c.target) {x = (false, c)}
        {y = send_on C (x ∷ xs) ensured} (omega arith, s) (omega (arith, done.0, ready.0), done.1)

  call-Next :
      (k : Call C) (c : Client C)
      → suc c.batch_sequence < 2 ^ 64
      → IsSound c
      → Next c.batch_sequence (call C k c)
  unfolding Next OnTarget
  call-Next (Call.sent_batch batch) c r s = send-Next batch c r s
  call-Next (Call.changed_target target) c r s =
      if-both (Next c.batch_sequence) (C.same c.target target) {x = c}
        {y = record c { target = target; stream = none }} (omega arith, s)
        (
          omega arith,
          record {
            on_target = tt;
            delivered = s.delivered;
            numbered = s.numbered;
            falling = s.falling;
          },
        )
  call-Next (Call.changed_architecture architecture) c r s = (
    omega arith,
    record {
      on_target = s.on_target;
      delivered = s.delivered;
      numbered = s.numbered;
      falling = s.falling;
    },
  )

  calls_keep :
      (ks : List (Call C)) (c : Client C)
      → length ks + c.batch_sequence < 2 ^ 64
      → IsSound c
      → IsSound (calls C ks c)
  unfolding Next
  calls_keep [] c r s = s
  calls_keep (k ∷ ks) c r s =
      let next = call-Next k c (omega arith) s in
      calls_keep ks (call C k c) (omega (arith, next.0)) next.1

  -- Whatever calls follow the constructor, fewer than 2 ^ 64 of them: every batch that was sent went
  -- to the target that the client had then, also after a failure or a change of the target; and the
  -- numbers of the batches rise strictly in the order of sending.
  pub delivery_lem :
      (target : C.Target) (architecture : C.Architecture) (has_logger : Bool) (net : C.Net)
      (ks : List (Call C))
      → length ks < 2 ^ 64
      → All
          (λ m. m.stream_target ≡ m.wanted_target)
          (calls C ks (new_client C target architecture has_logger net)).sent
        × Falling (calls C ks (new_client C target architecture has_logger net)).sent
  unfolding OnTarget
  delivery_lem target architecture has_logger net ks h =
      let s =
        calls_keep ks (new_client C target architecture has_logger net) (omega arith)
          (record { on_target = tt; delivered = tt; numbered = tt; falling = tt }) in
      (s.delivered, s.falling)
