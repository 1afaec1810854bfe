-- ===== src/Sim/World/Collide/Meets.antt =====
-- What the tests of the passes over the dynamic objects of libs/sim/src/world.cpp find, said by the
-- registry, the poses and the narrow phase.
use ddrl_nav2d.Prelude.{
  ℕ, ◌<◌, ◌≡◌, ◌≢◌, refl, ap, ◌∙◌, true, false, List, Option, none, some, get_elem?, ltb, ◌==◌,
  arith, Bool-cases, Option-cases, inl, inr,
}
use ddrl_nav2d.Sim.Maths.{Maths, Pose2}
use ddrl_nav2d.Sim.World.Entities.{EntityRef, find_entity, instance_for}
use ddrl_nav2d.Sim.World.Severity.{ModelPart, narrow_phase_intersect_check}
use ddrl_nav2d.Sim.World.Collide.{
  SceneInstance, Scenery, meets, object_hit, static_hit, Self, self_at,
}

module _ (M : Maths) (infinity : M.Real) {Name : Type 0} (S : Scenery M Name) where
  -- The narrow phase finds that a model at a pose intersects the model of an instance at the other
  -- pose, both of which are there.
  pub Touches : List (ModelPart M) → Pose2 M → Option (SceneInstance M) → Option (Pose2 M) → Type 0
  Touches model pose found at =
      (inst : SceneInstance M) × (other_model : List (ModelPart M)) × (other_pose : Pose2 M)
      × (found ≡ some inst)
      × (inst.model ≡ some other_model)
      × (at ≡ some other_pose)
      × ((narrow_phase_intersect_check M infinity model pose other_model other_pose).intersects
          ≡ true)

  -- The candidate of id `c` is another object than the one of id `id` and index `i`, has a larger
  -- index `j`, is active, and touches it.
  pub MeetsObject : ℕ → ℕ → List (ModelPart M) → Pose2 M → (ℕ → Option (Pose2 M)) → ℕ → ℕ → Type 0
  MeetsObject i id model pose seen c j =
      (c ≢ id)
      × (i < j)
      × ((entity : EntityRef Name) × (find_entity c S.registry ≡ some entity)
          × (entity.index ≡ j)
          × Touches model pose (instance_for c S.registry) (seen j))

  -- The candidate of id `c` touches the model at the static pose of its index.
  pub MeetsStatic : List (ModelPart M) → Pose2 M → ℕ → Type 0
  MeetsStatic model pose c =
      (entity : EntityRef Name) × (find_entity c S.registry ≡ some entity)
      × Touches model pose (instance_for c S.registry) (get_elem? S.static_poses entity.index)

  meets-Touches :
      (model : List (ModelPart M)) (pose : Pose2 M) (found : Option (SceneInstance M))
      (at : Option (Pose2 M))
      → meets M infinity S model pose found at ≡ true
      → Touches model pose found at
  unfolding Touches
  meets-Touches model pose none at = λ h. cc
  meets-Touches model pose (some inst) none = λ h. cc
  meets-Touches model pose (some inst) (some p) = elim (Option-cases inst.model) [
    | inl e ↦
        let k : meets M infinity S model pose (some inst) (some p) ≡ false = rw e refl in λ h. cc
    | inr (m, e) ↦
        let k : meets M infinity S model pose (some inst) (some p) ≡ true
            → (narrow_phase_intersect_check M infinity model pose m p).intersects ≡ true =
          rw e (λ h. h) in
        λ h. (inst, m, p, refl, e, refl, k h)
  ]

  Touches-meets :
      (model : List (ModelPart M)) (pose : Pose2 M) (found : Option (SceneInstance M))
      (at : Option (Pose2 M))
      → Touches model pose found at
      → meets M infinity S model pose found at ≡ true
  unfolding Touches
  Touches-meets model pose found at (inst, m, p, e, f, g, h) = rw (e, g, f) h

  pub object_hit-MeetsObject :
      (i id : ℕ) (model : List (ModelPart M)) (pose : Pose2 M) (seen : ℕ → Option (Pose2 M))
      (c j : ℕ)
      → object_hit M infinity S i id model pose seen c ≡ some j
      → MeetsObject i id model pose seen c j
  unfolding object_hit MeetsObject
  object_hit-MeetsObject i id model pose seen c j = elim (Bool-cases (c == id)) [
    | inl t ↦ rw t (λ h. cc)
    | inr n ↦ elim (Option-cases (find_entity c S.registry)) [
      | inl e ↦ rw (n, e) (λ h. cc)
      | inr (entity, e) ↦ elim (Bool-cases (ltb i entity.index)) [
        | inl l ↦
            let met =
              meets M infinity S model pose (instance_for c S.registry) (seen entity.index) in
            elim (Bool-cases met) [
              | inl q ↦
                  rw (n, e, l, q)
                    (λ h.
                      let k : entity.index ≡ j = cc in
                      (
                        ground (arith, n),
                        ground (arith, l, k),
                        (
                          entity,
                          refl,
                          k,
                          rw⁻¹ k (
                              meets-Touches model pose (instance_for c S.registry)
                                (seen entity.index) q),
                        ),
                      ))
              | inr q ↦ rw (n, e, l, q) (λ h. cc)
            ]
        | inr l ↦ rw (n, e, l) (λ h. cc)
      ]
    ]
  ]

  pub MeetsObject-object_hit :
      (i id : ℕ) (model : List (ModelPart M)) (pose : Pose2 M) (seen : ℕ → Option (Pose2 M))
      (c j : ℕ)
      → MeetsObject i id model pose seen c j
      → object_hit M infinity S i id model pose seen c ≡ some j
  unfolding object_hit MeetsObject
  MeetsObject-object_hit i id model pose seen c j (apart, less, (entity, e, k, touches)) =
      let n : (c == id) ≡ false = ground (arith, apart) in
      let l : ltb i j ≡ true = ground (arith, less) in
      rw (n, e, k, l, Touches-meets model pose (instance_for c S.registry) (seen j) touches) refl

  pub static_hit-MeetsStatic :
      (model : List (ModelPart M)) (pose : Pose2 M) (c : ℕ)
      → static_hit M infinity S model pose c ≡ true
      → MeetsStatic model pose c
  unfolding static_hit MeetsStatic
  static_hit-MeetsStatic model pose c = elim (Option-cases (find_entity c S.registry)) [
    | inl e ↦ rw e (λ h. cc)
    | inr (entity, e) ↦ rw e (λ h. (
      entity,
      refl,
      meets-Touches model pose (instance_for c S.registry) (get_elem? S.static_poses entity.index)
          h,
    ))
  ]

  pub MeetsStatic-static_hit :
      (model : List (ModelPart M)) (pose : Pose2 M) (c : ℕ)
      → MeetsStatic model pose c
      → static_hit M infinity S model pose c ≡ true
  unfolding static_hit MeetsStatic
  MeetsStatic-static_hit model pose c (entity, e, touches) = rw e (
      Touches-meets model pose (instance_for c S.registry) (get_elem? S.static_poses entity.index)
        touches)

  -- The object of index `i` has the id, is active at the pose, and has an instance of these bounds
  -- and this model.
  pub IsSelf : ℕ → (ℕ → Option (Pose2 M)) → Self M infinity S → Type 0
  IsSelf i seen (id, bounds, model, pose) =
      (get_elem? S.object_ids i ≡ some id)
      × (seen i ≡ some pose)
      × ((inst : SceneInstance M) × (instance_for id S.registry ≡ some inst)
          × (inst.bounds ≡ bounds)
          × (inst.model ≡ some model))

  pub IsSelf-self_at :
      (i : ℕ) (seen : ℕ → Option (Pose2 M)) (self : Self M infinity S)
      → IsSelf i seen self
      → self_at M infinity S i seen ≡ some self
  unfolding self_at IsSelf
  IsSelf-self_at i seen (id, bounds, model, pose) (a, b, (inst, c, d, e)) = rw (a, b, c, e, d) refl

  pub self_at-IsSelf :
      (i : ℕ) (seen : ℕ → Option (Pose2 M)) (self : Self M infinity S)
      → self_at M infinity S i seen ≡ some self
      → IsSelf i seen self
  unfolding self_at IsSelf
  self_at-IsSelf i seen (id, bounds, model, pose) = elim (Option-cases (get_elem? S.object_ids i)) [
    | inl a ↦ rw a (λ h. cc)
    | inr (own, a) ↦ elim (Option-cases (instance_for own S.registry)) [
      | inl b ↦ rw (a, b) (λ h. cc)
      | inr (inst, b) ↦ elim (Option-cases (seen i)) [
        | inl c ↦ rw (a, b, c) (λ h. cc)
        | inr (there, c) ↦ elim (Option-cases inst.model) [
          | inl d ↦ let k : self_at M infinity S i seen ≡ none = rw (a, b, c, d) refl in λ h. cc
          | inr (parts, d) ↦
              let k : self_at M infinity S i seen ≡ some (own, inst.bounds, parts, there) =
                rw (a, b, c, d) refl in
              λ h.
                let same : (own, inst.bounds, parts, there) ≡ (id, bounds, model, pose) = cc in
                (
                  a ∙ ap (λ (s : Self M infinity S). some s.0) same,
                  c ∙ ap (λ (s : Self M infinity S). some s.3) same,
                  (
                    inst,
                    rw⁻¹ (ap (λ (s : Self M infinity S). s.0) same) b,
                    ap (λ (s : Self M infinity S). s.1) same,
                    d ∙ ap (λ (s : Self M infinity S). some s.2) same,
                  ),
                )
        ]
      ]
    ]
  ]
