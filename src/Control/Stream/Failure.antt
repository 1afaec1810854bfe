-- ===== src/Control/Stream/Failure.antt =====
-- What `send` of apps/worker/src/rollout_stream_client.cpp returns and leaves behind.
use ddrl_nav2d.Prelude.{arith}
use ddrl_nav2d.Prelude.{
  suc, ◌≡◌, ◌⊎◌, inl, inr, refl, Bool, true, false, List, ◌∷◌, Option, none, some, length,
}
use ddrl_nav2d.Worker.SimLoop.{Rollout}
use ddrl_nav2d.Control.Stream.{
  Comm, Client, RolloutBatch, opened, ensure_stream_at, after_write, write_batch, send_on, send,
}

module _ (C : Comm) where
  -- A batch that was sent; or one that was not, which leaves no stream and changes no statistics.
  pub Outcome : Client C → Bool × Client C → Type 0
  Outcome c result =
      ((result.0 ≡ true) × (length result.1.sent ≡ suc (length c.sent)))
      ⊎ ((result.0 ≡ false)
          × (result.1.sent ≡ c.sent)
          × (result.1.stats ≡ c.stats)
          × (result.1.stream ≡ none))

  after_write-Outcome :
      (written : Bool × C.Net) (batch : List (Rollout C.payload)) (message : RolloutBatch C.payload)
      (to : C.Target) (c : Client C)
      → Outcome c (after_write C written batch message to c)
  unfolding Outcome
  after_write-Outcome (true, net) batch message to c = inl (refl, refl)
  after_write-Outcome (false, net) batch message to c = inr (refl, refl, refl, refl)

  write_batch-Outcome :
      (batch : List (Rollout C.payload)) (stream : Option C.Target) (c : Client C)
      → c.stream ≡ stream
      → Outcome c (write_batch C batch stream c)
  unfolding Outcome
  write_batch-Outcome batch none c e = inr (refl, refl, refl, e)
  write_batch-Outcome batch (some to) c e =
      after_write-Outcome (C.write _ c.net) batch _ to (record c { batch_sequence = _ })

  opened-Outcome :
      (batch : List (Rollout C.payload)) (made : Bool × C.Net) (c : Client C)
      → Outcome c (send_on C batch (opened C made c))
  unfolding Outcome
  opened-Outcome batch made c = ground arith

  ensure-Outcome :
      (batch : List (Rollout C.payload)) (stream : Option C.Target) (c : Client C)
      → C.is_empty c.target ≡ false
      → c.stream ≡ stream
      → Outcome c (send_on C batch (ensure_stream_at C stream c))
  ensure-Outcome batch (some to) c h e = write_batch-Outcome batch c.stream c refl
  ensure-Outcome batch none c h e = rw h (opened-Outcome batch (C.open_stream c.target c.net) c)

  -- The error paths: on a target that is not empty, `send` of a batch that is not empty returns true
  -- and has sent one batch more; or it returns false, has sent nothing and changed no statistics, and
  -- leaves no stream, so that the next call opens one.
  pub send-Outcome :
      (r : Rollout C.payload) (rs : List (Rollout C.payload)) (c : Client C)
      → C.is_empty c.target ≡ false
      → Outcome c (send C (r ∷ rs) c)
  unfolding send
  send-Outcome r rs c h = rw h (ensure-Outcome (r ∷ rs) c.stream c h refl)
