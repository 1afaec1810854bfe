-- ===== src/Events/Valid.antt =====
-- Every sequence of calls keeps a channel in good order: no id twice, and each entry's storage of
-- the kind that its `keep_last` announces.
use ddrl_nav2d.Prelude.{
  ℕ, ◌≡◌, ◌≢◌, refl, Bool, true, false, Option, none, some, List, [], ◌∷◌, ◌==◌, arith, Bool-cases,
  ==_iff, subst, Option-cases, inl, inr,
}
use ddrl_nav2d.Events.Channel.{
  SpscQueue, Storage, Entry, Channel, BusError, bad_variant_access, Result, ok, err, find, erase,
  update, register_queue, unregister_queue, enqueue_copy, enqueue_move, publish_to, publish_with,
  publish_copy, publish_move, received, dequeue_from, dequeue_at, try_dequeue, enqueued,
}
use ddrl_nav2d.Events.Lookup.{
  HasDistinctKeys, find-update, find-erase, erase-HasDistinctKeys, update-HasDistinctKeys,
}

pub data Call (T : Type 0) : Type 0 where
  register : ℕ → ℕ → ℕ → Call T
  unregister : ℕ → Call T
  copy : ℕ → T → Call T
  move : ℕ → T → Call T
  dequeue : ℕ → Call T
  clears : Call T

ne→not_eq : (k : ℕ) → k ≢ 1 → (k == 1) ≡ false
ne→not_eq k h = ground arith

module _ {T : Type 0} (S : SpscQueue T) where
  abbrev pub Matches : Storage S → ℕ → Type 0
  Matches (Storage.mailbox slot) keep_last = keep_last ≡ 1
  Matches (Storage.queue q) keep_last = keep_last ≢ 1

  abbrev pub MatchesAt : Option (Entry S) → Type 0
  MatchesAt none = Unit
  MatchesAt (some e) = Matches e.storage e.keep_last

  pub record IsValid (c : Channel S) : Type 0 where
    pub distinct : HasDistinctKeys c
    pub matching : (j : ℕ) → MatchesAt (find j c)

  -- A call, with the error that it returns or throws, if any.
  abbrev pub error_of {ℓ} : {A : Type ℓ} → Result A × Channel S → Option BusError × Channel S
  error_of (ok a, c) = (none, c)
  error_of (err e, c) = (some e, c)

  pub call : Channel S → Call T → Option BusError × Channel S
  call c (register id cap keep_last) = error_of (register_queue S c id cap keep_last)
  call c (unregister id) = error_of (unregister_queue S c id)
  call c (copy id v) = error_of (publish_copy S c id v)
  call c (move id v) = error_of (publish_move S c id v)
  call c (dequeue id) = error_of (try_dequeue S c id)
  call c clears = (none, [])

  -- The channel after a sequence of calls.
  pub run : Channel S → List (Call T) → Channel S
  run c [] = c
  run c (k ∷ ks) = run (call c k).1 ks

  -- What each call shows of a valid channel.
  pub record Keeps (r : Option BusError × Channel S) : Type 0 where
    pub valid : IsValid r.1
    pub no_bad_access : r.0 ≢ some bad_variant_access

  update-IsValid :
      (c : Channel S) (id : ℕ) (e : Entry S) (s : Storage S)
      → IsValid c
      → find id c ≡ some e
      → Matches s e.keep_last
      → IsValid (update id s c)
  update-IsValid c id e s v f m = record {
    distinct = update-HasDistinctKeys id s c v.distinct;
    matching = λ j. elim (Bool-cases (id == j)) [
      | inl same ↦
          let here : find j c ≡ some e = subst (λ k. find k c ≡ some e) ((==_iff id j).0 same) f in
          rw (find-update id j s c, same, here) m
      | inr other ↦ rw (find-update id j s c, other) (v.matching j)
    ];
  }

  erase_matching : (c : Channel S) (id : ℕ) → IsValid c → (j : ℕ) → MatchesAt (find j (erase id c))
  erase_matching c id v j = elim (Bool-cases (id == j)) [
    | inl same ↦ rw (find-erase id j c v.distinct, same) tt
    | inr other ↦ rw (find-erase id j c v.distinct, other) (v.matching j)
  ]

  register-Keeps :
      (c : Channel S) (id cap keep_last : ℕ)
      → IsValid c
      → Keeps (error_of (register_queue S c id cap keep_last))
  unfolding register_queue
  register-Keeps c id cap keep_last v = ground arith

  unregister-Keeps :
      (c : Channel S) (id : ℕ) → IsValid c → Keeps (error_of (unregister_queue S c id))
  unfolding unregister_queue
  unregister-Keeps c id v = elim (Option-cases (find id c)) [
    | inl free ↦ rw (free, unregister_queue) (record { valid = v; no_bad_access = λ e. cc })
    | inr (e, taken) ↦
        rw (taken, unregister_queue)
          (record {
            valid = record {
              distinct = erase-HasDistinctKeys id c v.distinct;
              matching = λ j. erase_matching c id v j;
            };
            no_bad_access = λ e. cc;
          })
  ]

  error_of-Keeps {ℓ} :
      {A : Type ℓ} (r : Result A) (c : Channel S)
      → IsValid c
      → r ≢ err bad_variant_access
      → Keeps (error_of (r, c))
  error_of-Keeps r c v h = ground arith

  -- The mode test agrees with the storage, so `std::get` finds what it asks for.
  publish_to-Keeps :
      (enqueue : S.Queue → ℕ → T → Result (Unit {0}) × S.Queue)
      (proper : (q : S.Queue) (k : ℕ) (v : T) → (enqueue q k v).0 ≢ err bad_variant_access)
      (c : Channel S) (id : ℕ) (v : T) (e : Entry S) (s : Storage S)
      → IsValid c
      → find id c ≡ some e
      → Matches s e.keep_last
      → Keeps (error_of (publish_to S enqueue c id v e.keep_last s))
  unfolding publish_to
  publish_to-Keeps enqueue proper c id v e (Storage.mailbox old) w f m =
      rw ((==_iff e.keep_last 1).1 m)
        (record { valid = update-IsValid c id e _ w f m; no_bad_access = λ x. cc })
  publish_to-Keeps enqueue proper c id v e (Storage.queue q) w f m =
      rw (ne→not_eq e.keep_last m)
        (error_of-Keeps _ _ (update-IsValid c id e _ w f m) (proper q e.keep_last v))

  publish_with-Keeps :
      (enqueue : S.Queue → ℕ → T → Result (Unit {0}) × S.Queue)
      (proper : (q : S.Queue) (k : ℕ) (v : T) → (enqueue q k v).0 ≢ err bad_variant_access)
      (c : Channel S) (id : ℕ) (v : T) (o : Option (Entry S))
      → IsValid c
      → find id c ≡ o
      → Keeps (error_of (publish_with S enqueue c id v o))
  unfolding publish_with
  publish_with-Keeps enqueue proper c id v none w f = record { valid = w; no_bad_access = λ e. cc }
  publish_with-Keeps enqueue proper c id v (some e) w f =
      publish_to-Keeps enqueue proper c id v e e.storage w f (subst MatchesAt f (w.matching id))

  enqueued-proper : (b : Bool) → enqueued S b ≢ err bad_variant_access
  enqueued-proper true e = cc
  enqueued-proper false e = cc

  enqueue_copy-proper :
      (q : S.Queue) (k : ℕ) (v : T) → (enqueue_copy S q k v).0 ≢ err bad_variant_access
  unfolding enqueue_copy
  enqueue_copy-proper q k v e = ground arith

  enqueue_move-proper :
      (q : S.Queue) (k : ℕ) (v : T) → (enqueue_move S q k v).0 ≢ err bad_variant_access
  unfolding enqueue_move
  enqueue_move-proper q k v = enqueued-proper _

  received-proper : (o : Option T) → received S o ≢ err bad_variant_access
  received-proper none e = cc
  received-proper (some v) e = cc

  dequeue_from-Keeps :
      (c : Channel S) (id : ℕ) (e : Entry S) (s : Storage S)
      → IsValid c
      → find id c ≡ some e
      → Matches s e.keep_last
      → Keeps (error_of (dequeue_from S c id e.keep_last s))
  unfolding dequeue_from
  dequeue_from-Keeps c id e (Storage.mailbox slot) w f m =
      rw ((==_iff e.keep_last 1).1 m)
        (error_of-Keeps _ _ (update-IsValid c id e _ w f m) (received-proper slot))
  dequeue_from-Keeps c id e (Storage.queue q) w f m =
      rw (ne→not_eq e.keep_last m)
        (error_of-Keeps _ _ (update-IsValid c id e _ w f m) (received-proper _))

  dequeue_at-Keeps :
      (c : Channel S) (id : ℕ) (o : Option (Entry S))
      → IsValid c
      → find id c ≡ o
      → Keeps (error_of (dequeue_at S c id o))
  unfolding dequeue_at
  dequeue_at-Keeps c id none w f = record { valid = w; no_bad_access = λ e. cc }
  dequeue_at-Keeps c id (some e) w f =
      dequeue_from-Keeps c id e e.storage w f (subst MatchesAt f (w.matching id))

  call-Keeps : (c : Channel S) (k : Call T) → IsValid c → Keeps (call c k)
  unfolding call publish_copy publish_move try_dequeue
  call-Keeps c (register id cap keep_last) v = register-Keeps c id cap keep_last v
  call-Keeps c (unregister id) v = unregister-Keeps c id v
  call-Keeps c (copy id x) v =
      publish_with-Keeps (enqueue_copy S) enqueue_copy-proper c id x (find id c) v refl
  call-Keeps c (move id x) v =
      publish_with-Keeps (enqueue_move S) enqueue_move-proper c id x (find id c) v refl
  call-Keeps c (dequeue id) v = dequeue_at-Keeps c id (find id c) v refl
  call-Keeps c clears v = ground arith

  run-IsValid : (c : Channel S) (ks : List (Call T)) → IsValid c → IsValid (run c ks)
  unfolding run
  run-IsValid c [] v = v
  run-IsValid c (k ∷ ks) v = run-IsValid (call c k).1 ks (call-Keeps c k v).valid

  -- After any sequence of calls on an empty channel no id is registered twice, the storage of every
  -- entry is a mailbox exactly when its `keep_last` is 1, and the next call, whichever it is, does
  -- not throw `std::bad_variant_access`.
  pub stays-IsValid :
      (ks : List (Call T)) (k : Call T)
      → IsValid (run [] ks) × ((call (run [] ks) k).0 ≢ some bad_variant_access)
  stays-IsValid ks k =
      let v = run-IsValid [] ks (unfold find in record { distinct = tt; matching = λ j. tt }) in
      (v, (call-Keeps (run [] ks) k v).no_bad_access)
