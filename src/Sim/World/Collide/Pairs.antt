-- ===== src/Sim/World/Collide/Pairs.antt =====
-- The passes over the dynamic objects of libs/sim/src/world.cpp stop objects while they test others;
-- what they find does not depend on that.
use ddrl_nav2d.Prelude.{
  ℕ, ◌≡◌, ◌↔◌, refl, sym, ap, ◌∙◌, Bool, true, false, List, [], ◌∷◌, ◌++◌, Option, none, some,
  length, range_from, if◌then◌else◌,
}
use ddrl_nav2d.Collision.Bounds.{Aabb2}
use ddrl_nav2d.Sim.Maths.{Maths, Pose2}
use ddrl_nav2d.Sim.Object.{Object, on_collision}
use ddrl_nav2d.Sim.Spawn.Despawn.{modify}
use ddrl_nav2d.Sim.World.Severity.{ModelPart}
use ddrl_nav2d.Sim.World.Collide.{
  Scenery, look, strike_both, object_hit, resolve_candidates, static_hit, resolve_statics, Self,
  self_at, pair_at, pairs, static_at, statics, resolve_dynamic_object_collisions,
}
use ddrl_nav2d.Sim.World.Collide.Meets.{
  IsSelf, MeetsObject, MeetsStatic, self_at-IsSelf, IsSelf-self_at, object_hit-MeetsObject,
  MeetsObject-object_hit, static_hit-MeetsStatic, MeetsStatic-static_hit,
}
use ddrl_nav2d.Sim.World.Collide.Events.{collide_all, collide_all-append, look-collide_all}

module _ (M : Maths) (infinity : M.Real) {Name : Type 0} (S : Scenery M Name) where
  abbrev pair_of : ℕ → Option ℕ → List ℕ
  pair_of i none = []
  pair_of i (some j) = i ∷ (j ∷ [])

  abbrev candidate_events :
      ℕ → ℕ → List (ModelPart M) → Pose2 M → (ℕ → Option (Pose2 M)) → List ℕ → List ℕ
  candidate_events i id model pose seen [] = []
  candidate_events i id model pose seen (c ∷ cs) =
      pair_of i (object_hit M infinity S i id model pose seen c)
      ++ candidate_events i id model pose seen cs

  strike_both-collide :
      (i : ℕ) (j : Option ℕ) (objects : List (Object M))
      → strike_both M infinity S i j objects ≡ collide_all M (pair_of i j) objects
  strike_both-collide i none objects = refl
  strike_both-collide i (some j) objects = refl

  candidates-events :
      (i id : ℕ) (model : List (ModelPart M)) (pose : Pose2 M) (cs : List ℕ)
      (objects : List (Object M))
      → resolve_candidates M infinity S i id model pose cs objects
        ≡ collide_all M (candidate_events i id model pose (look M objects) cs) objects
  candidates-events i id model pose [] objects = refl
  candidates-events i id model pose (c ∷ cs) objects =
      let hit = object_hit M infinity S i id model pose (look M objects) c in
      rw (strike_both-collide i hit objects) (
        candidates-events i id model pose cs (collide_all M (pair_of i hit) objects)
        ∙ ap
            (λ seen.
              collide_all M (candidate_events i id model pose seen cs)
                (collide_all M (pair_of i hit) objects))
            (look-collide_all M (pair_of i hit) objects)
        ∙ sym (collide_all-append M (pair_of i hit) _ objects))

  abbrev once_if : Bool → ℕ → List ℕ
  once_if true i = i ∷ []
  once_if false i = []

  abbrev static_events : ℕ → List (ModelPart M) → Pose2 M → List ℕ → List ℕ
  static_events i model pose [] = []
  static_events i model pose (c ∷ cs) =
      once_if (static_hit M infinity S model pose c) i ++ static_events i model pose cs

  once-collide :
      (b : Bool) (i : ℕ) (objects : List (Object M))
      → (if b then modify i (on_collision M) objects else objects)
        ≡ collide_all M (once_if b i) objects
  once-collide true i objects = refl
  once-collide false i objects = refl

  statics-events :
      (i : ℕ) (model : List (ModelPart M)) (pose : Pose2 M) (cs : List ℕ)
      (objects : List (Object M))
      → resolve_statics M infinity S i model pose cs objects
        ≡ collide_all M (static_events i model pose cs) objects
  statics-events i model pose [] objects = refl
  statics-events i model pose (c ∷ cs) objects =
      let hit = static_hit M infinity S model pose c in
      rw (once-collide hit i objects) (
        statics-events i model pose cs (collide_all M (once_if hit i) objects)
        ∙ sym (collide_all-append M (once_if hit i) _ objects))

module _ (M : Maths) (infinity : M.Real) {Name : Type 0} (S : Scenery M Name)
    (query : Aabb2 M.double → Bool → Bool → List ℕ) where
  abbrev self_events : ℕ → (ℕ → Option (Pose2 M)) → Option (Self M infinity S) → List ℕ
  self_events i seen none = []
  self_events i seen (some (id, bounds, model, pose)) =
      candidate_events M infinity S i id model pose seen (query bounds false true)

  -- The objects that the pairs of objects stop, in order, all pairs tested on the same objects.
  abbrev pub pair_events : (ℕ → Option (Pose2 M)) → List ℕ → List ℕ
  pair_events seen [] = []
  pair_events seen (i ∷ is) =
      self_events i seen (self_at M infinity S i seen) ++ pair_events seen is

  abbrev wall_events : ℕ → Option (Self M infinity S) → List ℕ
  wall_events i none = []
  wall_events i (some (id, bounds, model, pose)) =
      static_events M infinity S i model pose (query bounds true false)

  -- The objects that static entities stop.
  abbrev pub all_wall_events : (ℕ → Option (Pose2 M)) → List ℕ → List ℕ
  all_wall_events seen [] = []
  all_wall_events seen (i ∷ is) =
      wall_events i (self_at M infinity S i seen) ++ all_wall_events seen is

  pair_at-events :
      (i : ℕ) (self : Option (Self M infinity S)) (objects : List (Object M))
      → pair_at M infinity S query i self objects
        ≡ collide_all M (self_events i (look M objects) self) objects
  pair_at-events i none objects = refl
  pair_at-events i (some (id, bounds, model, pose)) objects =
      candidates-events M infinity S i id model pose (query bounds false true) objects

  pairs-events :
      (is : List ℕ) (objects : List (Object M))
      → pairs M infinity S query is objects
        ≡ collide_all M (pair_events (look M objects) is) objects
  pairs-events [] objects = refl
  pairs-events (i ∷ is) objects =
      let es = self_events i (look M objects) (self_at M infinity S i (look M objects)) in
      rw (pair_at-events i (self_at M infinity S i (look M objects)) objects) (
        pairs-events is (collide_all M es objects)
        ∙ ap (λ seen. collide_all M (pair_events seen is) (collide_all M es objects))
            (look-collide_all M es objects)
        ∙ sym (collide_all-append M es _ objects))

  static_at-events :
      (i : ℕ) (self : Option (Self M infinity S)) (objects : List (Object M))
      → static_at M infinity S query i self objects ≡ collide_all M (wall_events i self) objects
  static_at-events i none objects = refl
  static_at-events i (some (id, bounds, model, pose)) objects =
      statics-events M infinity S i model pose (query bounds true false) objects

  walls-events :
      (is : List ℕ) (objects : List (Object M))
      → statics M infinity S query is objects
        ≡ collide_all M (all_wall_events (look M objects) is) objects
  walls-events [] objects = refl
  walls-events (i ∷ is) objects =
      let es = wall_events i (self_at M infinity S i (look M objects)) in
      rw (static_at-events i (self_at M infinity S i (look M objects)) objects) (
        walls-events is (collide_all M es objects)
        ∙ ap (λ seen. collide_all M (all_wall_events seen is) (collide_all M es objects))
            (look-collide_all M es objects)
        ∙ sym (collide_all-append M es _ objects))

  pub passes-events :
      (objects : List (Object M))
      → resolve_dynamic_object_collisions M infinity S query objects
        ≡ collide_all M
            (pair_events (look M objects) (range_from 0 (length objects))
              ++ all_wall_events (look M objects) (range_from 0 (length objects)))
            objects
  unfolding resolve_dynamic_object_collisions
  passes-events objects =
      let all = range_from 0 (length objects) in
      let es = pair_events (look M objects) all in
      rw (pairs-events all objects) (
        walls-events all (collide_all M es objects)
        ∙ ap (λ seen. collide_all M (all_wall_events seen all) (collide_all M es objects))
            (look-collide_all M es objects)
        ∙ sym (collide_all-append M es _ objects))

  -- Both passes over the dynamic objects call on_collision for the objects that the pairs of objects
  -- and then the static candidates stop, in this order, each test made on the objects as they were
  -- before the passes: what the passes stop on their way changes none of the later tests. An object
  -- takes part exactly if it is there and active and its id has an instance with a model. It stops
  -- with another object exactly if a candidate of the query of its bounds is that object, of another id and a
  -- larger index, and is active, and the narrow phase finds their models to intersect; and it stops
  -- at a static candidate exactly if the candidate is a known entity with a model and a static pose,
  -- and the narrow phase finds the models to intersect.
  pub dynamic_collisions_lem :
      (objects : List (Object M)) (i id : ℕ) (bounds : Aabb2 M.double) (model : List (ModelPart M))
      (pose : Pose2 M) (c j : ℕ)
      → (resolve_dynamic_object_collisions M infinity S query objects
          ≡ collide_all M
              (pair_events (look M objects) (range_from 0 (length objects))
                ++ all_wall_events (look M objects) (range_from 0 (length objects)))
              objects)
        × ((self_at M infinity S i (look M objects) ≡ some (id, bounds, model, pose))
            ↔ IsSelf M infinity S i (look M objects) (id, bounds, model, pose))
        × ((object_hit M infinity S i id model pose (look M objects) c ≡ some j)
            ↔ MeetsObject M infinity S i id model pose (look M objects) c j)
        × ((static_hit M infinity S model pose c ≡ true) ↔ MeetsStatic M infinity S model pose c)
  dynamic_collisions_lem objects i id bounds model pose c j =
      let seen = look M objects in
      (
        passes-events objects,
        (
          self_at-IsSelf M infinity S i seen (id, bounds, model, pose),
          IsSelf-self_at M infinity S i seen (id, bounds, model, pose),
        ),
        (
          object_hit-MeetsObject M infinity S i id model pose seen c j,
          MeetsObject-object_hit M infinity S i id model pose seen c j,
        ),
        (
          static_hit-MeetsStatic M infinity S model pose c,
          MeetsStatic-static_hit M infinity S model pose c,
        ),
      )
