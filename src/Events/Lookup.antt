-- ===== src/Events/Lookup.antt =====
-- The map of a channel: what `find` sees after each write.
use ddrl_nav2d.Prelude.{ℕ, ◌≡◌, Option, none, some, [], ◌∷◌, if◌then◌else◌, ◌==◌, arith}
use ddrl_nav2d.Events.Channel.{SpscQueue, Storage, Entry, Channel, find, erase, update}

module _ {T : Type 0} {S : SpscQueue T} where
  abbrev pub with_storage : Storage S → Option (Entry S) → Option (Entry S)
  with_storage s none = none
  with_storage s (some e) = some (record e { storage = s })

  pub find-update :
      (id j : ℕ) (s : Storage S) (c : Channel S)
      → find j (update id s c) ≡ (if id == j then with_storage s (find j c) else find j c)
  unfolding find update
  find-update id j s [] = ground arith
  find-update id j s ((k, e) ∷ rest) = ground (arith, find-update id j s rest)

  -- No id occurs twice.
  abbrev pub HasDistinctKeys : Channel S → Type 0
  HasDistinctKeys [] = Unit
  HasDistinctKeys ((k, e) ∷ rest) = (find k rest ≡ none) × HasDistinctKeys rest

  pub find-erase :
      (id j : ℕ) (c : Channel S)
      → HasDistinctKeys c
      → find j (erase id c) ≡ (if id == j then none else find j c)
  unfolding find erase
  find-erase id j [] d = ground arith
  find-erase id j ((k, e) ∷ rest) d = ground (arith, find-erase id j rest d.1)

  pub erase-HasDistinctKeys :
      (id : ℕ) (c : Channel S) → HasDistinctKeys c → HasDistinctKeys (erase id c)
  unfolding erase
  erase-HasDistinctKeys id [] d = tt
  erase-HasDistinctKeys id ((k, e) ∷ rest) d =
      ground (arith, erase-HasDistinctKeys id rest d.1, find-erase id k rest d.1)

  pub update-HasDistinctKeys :
      (id : ℕ) (s : Storage S) (c : Channel S) → HasDistinctKeys c → HasDistinctKeys (update id s c)
  unfolding update
  update-HasDistinctKeys id s [] d = tt
  update-HasDistinctKeys id s ((k, e) ∷ rest) d =
      ground (arith, update-HasDistinctKeys id s rest d.1, find-update id k s rest)
