-- ===== src/Control/Subscriber/Version.antt =====
-- The versions that `PolicySubscriber` of apps/worker/src/policy_subscriber.cpp reports.
use ddrl_nav2d.Prelude.{arith}
use ddrl_nav2d.Prelude.{ℕ, ◌≡◌, refl, true, false, List, [], ◌∷◌, Option, none, some, if-both}
use ddrl_nav2d.Control.Subscriber.{
  Policies, PolicyPayload, Place, Input, Subscriber, Event, new_subscriber, store_model, receive,
  read_step, connect_step, acknowledge_step, finish_step, step_at, thread_step, start_at, start,
  join_at, join, happen, run, current_version, version_of,
}

module _ (P : Policies) where
  -- An error path: a push whose model cannot be built leaves the model and its version as they are,
  -- while `last_version_`, with which the next subscription asks for news, becomes the version of
  -- the push. The push was read, and a configuration is set or not.
  pub failed_build_lem :
      (payload : PolicyPayload P) (s : Subscriber P)
      → s.place ≡ Place.blocked
      → s.cancelled ≡ false
      → P.from_payload payload.version payload.onnx_model ≡ none
      → ((thread_step P (Input.message payload) s).model ≡ s.model)
        × (current_version P (thread_step P (Input.message payload) s) ≡ current_version P s)
        × ((thread_step P (Input.message payload) s).last_version ≡ payload.version)
  unfolding thread_step
  failed_build_lem payload s e c b = ground arith

module _ (P : Policies)
    (keeps : (version : ℕ) (bytes : P.Bytes) (m : P.PolicyModel)
      → P.from_payload version bytes ≡ some m
      → P.model_version m ≡ version) where
  Matches : Option P.PolicyModel → ℕ → Type 0
  Matches none version = version ≡ 0
  Matches (some m) version = P.model_version m ≡ version

  InStep : Subscriber P → Type 0
  InStep s = Matches s.model s.version

  store_model-InStep :
      (built : Option P.PolicyModel) (bytes : P.Bytes) (version : ℕ) (s : Subscriber P)
      → P.from_payload version bytes ≡ built
      → InStep s
      → InStep (store_model P built version s)
  unfolding InStep Matches
  store_model-InStep none bytes version s e h = h
  store_model-InStep (some m) bytes version s e h = keeps version bytes m e

  receive-InStep :
      (payload : PolicyPayload P) (s : Subscriber P) → InStep s → InStep (receive P payload s)
  unfolding InStep
  receive-InStep payload s h = ground (
    arith,
    if-both InStep s.has_policy_config,
    store_model-InStep (P.from_payload payload.version payload.onnx_model) payload.onnx_model
        payload.version (record s { last_version = payload.version }) refl h,
  )

  read_step-InStep : (i : Input P) (s : Subscriber P) → InStep s → InStep (read_step P i s)
  unfolding InStep
  read_step-InStep (Input.message payload) s h = receive-InStep payload s h
  read_step-InStep Input.nothing s h = h
  read_step-InStep Input.refused s h = h
  read_step-InStep Input.accepted s h = h
  read_step-InStep Input.ended s h = h

  connect_step-InStep : (i : Input P) (s : Subscriber P) → InStep s → InStep (connect_step P i s)
  unfolding InStep
  connect_step-InStep i s h = ground arith

  acknowledge_step-InStep :
      (i : Input P) (s : Subscriber P) → InStep s → InStep (acknowledge_step P i s)
  unfolding InStep
  acknowledge_step-InStep i s h = ground arith

  finish_step-InStep :
      (i : Input P) (next : Place P) (s : Subscriber P) → InStep s → InStep (finish_step P i next s)
  unfolding InStep
  finish_step-InStep i next s h = ground arith

  step_at-InStep :
      (p : Place P) (i : Input P) (s : Subscriber P) → InStep s → InStep (step_at P p i s)
  unfolding InStep
  step_at-InStep Place.idle i s h = h
  step_at-InStep Place.head i s h = h
  step_at-InStep Place.waiting i s h =
      ground (arith, if-both InStep s.stop_requested, if-both InStep (P.is_empty s.target))
  step_at-InStep (Place.targeted t) i s h = h
  step_at-InStep (Place.connecting t) i s h = connect_step-InStep i s h
  step_at-InStep Place.reading i s h = h
  step_at-InStep Place.blocked i s h =
      if-both InStep s.cancelled {x = record s { place = Place.closing }} {y = read_step P i s} h
        (read_step-InStep i s h)
  step_at-InStep Place.acknowledging i s h = acknowledge_step-InStep i s h
  step_at-InStep Place.failing i s h = finish_step-InStep i Place.sleeping s h
  step_at-InStep Place.closing i s h = finish_step-InStep i Place.closed s h
  step_at-InStep Place.closed i s h = h
  step_at-InStep Place.sleeping i s h = h
  step_at-InStep Place.finished i s h = h

  start_at-InStep : (p : Place P) (s : Subscriber P) → InStep s → InStep (start_at P p s)
  unfolding InStep
  start_at-InStep p s h = ground arith

  join_at-InStep : (p : Place P) (s : Subscriber P) → InStep s → InStep (join_at P p s)
  unfolding InStep
  join_at-InStep p s h = ground arith

  happen-InStep : (e : Event P) (s : Subscriber P) → InStep s → InStep (happen P e s)
  unfolding InStep thread_step start join
  happen-InStep (Event.stepped i) s h = step_at-InStep s.place i s h
  happen-InStep Event.started s h = start_at-InStep s.place s h
  happen-InStep Event.stop_stored s h = h
  happen-InStep Event.reconnect_requested s h =
      if-both InStep s.active_context {x = record s { cancelled = true }} {y = s} h h
  happen-InStep (Event.target_stored t) s h = h
  happen-InStep Event.joined s h = join_at-InStep s.place s h
  happen-InStep Event.config_set s h = h

  run-InStep : (es : List (Event P)) (s : Subscriber P) → InStep s → InStep (run P es s)
  run-InStep [] s h = h
  run-InStep (e ∷ es) s h = run-InStep es (happen P e s) (happen-InStep e s h)

  Matches-version :
      (model : Option P.PolicyModel) (version : ℕ)
      → Matches model version
      → version_of P model version ≡ version
  unfolding Matches
  Matches-version none version h = refl
  Matches-version (some m) version h = h

  -- If a model that was built carries the version of its payload, then `version()` is at any time the
  -- version that was stored with the last model, however the calls and the steps of the thread were
  -- interleaved.
  pub version_lem :
      (es : List (Event P))
      → current_version P (run P es (new_subscriber P)) ≡ (run P es (new_subscriber P)).version
  unfolding InStep new_subscriber Matches
  version_lem es =
      let reached = run P es (new_subscriber P) in
      Matches-version reached.model reached.version (run-InStep es (new_subscriber P) refl)
