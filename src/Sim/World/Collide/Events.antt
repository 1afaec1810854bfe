-- ===== src/Sim/World/Collide/Events.antt =====
-- The loop over the robot's candidates of libs/sim/src/world.cpp stops objects while it tests others;
-- what it finds does not depend on that.
use ddrl_nav2d.Prelude.{arith}
use ddrl_nav2d.Prelude.{
  ℕ, zero, suc, ◌≡◌, refl, sym, ap, ◌∙◌, fun_ext, List, [], ◌∷◌, ◌++◌, map, Option, none, some,
  append_assoc, append-nil,
}
use ddrl_nav2d.Collision.Sat.{CollisionResult}
use ddrl_nav2d.Sim.Maths.{Maths, Pose2}
use ddrl_nav2d.Sim.Object.{DynamicObjectState, Object, is_active, collide_in, on_collision}
use ddrl_nav2d.Sim.Spawn.Despawn.{modify}
use ddrl_nav2d.Sim.World.Severity.{CollisionContact}
use ddrl_nav2d.Sim.World.Collide.{
  Hit, Tally, Scenery, pose_if_active, look, strike_object, robot_hit, strike, resolve_robot,
}

module _ (M : Maths) where
  abbrev pub collide_all : List ℕ → List (Object M) → List (Object M)
  collide_all [] objects = objects
  collide_all (i ∷ is) objects = collide_all is (modify i (on_collision M) objects)

  pub collide_all-append :
      (is js : List ℕ) (objects : List (Object M))
      → collide_all (is ++ js) objects ≡ collide_all js (collide_all is objects)
  collide_all-append [] js objects = refl
  collide_all-append (i ∷ is) js objects =
      collide_all-append is js (modify i (on_collision M) objects)

  seen-collide_in :
      (o : Object M) (state : DynamicObjectState)
      → o.state ≡ state
      → pose_if_active M (some (collide_in M state o)) ≡ pose_if_active M (some o)
  unfolding is_active
  seen-collide_in o state e = ground arith

  look-modify :
      (i : ℕ) (objects : List (Object M)) (j : ℕ)
      → look M (modify i (on_collision M) objects) j ≡ look M objects j
  unfolding on_collision
  look-modify i [] j = refl
  look-modify zero (o ∷ os) zero = seen-collide_in o o.state refl
  look-modify zero (o ∷ os) (suc j) = refl
  look-modify (suc i) (o ∷ os) zero = refl
  look-modify (suc i) (o ∷ os) (suc j) = look-modify i os j

  pub look-collide_all :
      (is : List ℕ) (objects : List (Object M)) → look M (collide_all is objects) ≡ look M objects
  look-collide_all [] objects = refl
  look-collide_all (i ∷ is) objects =
      look-collide_all is (modify i (on_collision M) objects) ∙ fun_ext (look-modify i objects)

module _ (M : Maths) (infinity : M.Real) {Name : Type 0} (S : Scenery M Name) where
  abbrev keep_hit : Option (Hit M Name) → List (Hit M Name) → List (Hit M Name)
  keep_hit none hs = hs
  keep_hit (some h) hs = h ∷ hs

  -- The hits of the robot among the candidates, all found on the same objects.
  abbrev pub robot_hits : Pose2 M → (ℕ → Option (Pose2 M)) → List ℕ → List (Hit M Name)
  robot_hits pose seen [] = []
  robot_hits pose seen (c ∷ cs) =
      keep_hit (robot_hit M infinity S pose seen c) (robot_hits pose seen cs)

  abbrev struck_by : Option ℕ → List ℕ → List ℕ
  struck_by none is = is
  struck_by (some i) is = i ∷ is

  abbrev pub struck_all : List (Hit M Name) → List ℕ
  struck_all [] = []
  struck_all (h ∷ hs) = struck_by h.struck (struck_all hs)

  abbrev pub tally_of : List (Hit M Name) → Tally M Name → Tally M Name
  tally_of [] t = t
  tally_of (h ∷ hs) t = tally_of hs (strike M infinity S (some h) t)

  look-strike :
      (h : Option (Hit M Name)) (t : Tally M Name)
      → look M (strike M infinity S h t).objects ≡ look M t.objects
  look-strike none t = refl
  look-strike (some h) t = go h.struck
    where
      go : (s : Option ℕ) → look M (strike_object M s t.objects) ≡ look M t.objects
      go none = refl
      go (some i) = fun_ext (look-modify M i t.objects)

  tally-keep :
      (h : Option (Hit M Name)) (hs : List (Hit M Name)) (t : Tally M Name)
      → tally_of (keep_hit h hs) t ≡ tally_of hs (strike M infinity S h t)
  tally-keep none hs t = refl
  tally-keep (some h) hs t = refl

  resolve-tally :
      (pose : Pose2 M) (cs : List ℕ) (t : Tally M Name)
      → resolve_robot M infinity S pose cs t ≡ tally_of (robot_hits pose (look M t.objects) cs) t
  unfolding resolve_robot
  resolve-tally pose [] t = refl
  resolve-tally pose (c ∷ cs) t =
      let hit = robot_hit M infinity S pose (look M t.objects) c in
      resolve-tally pose cs (strike M infinity S hit t)
      ∙ ap (λ seen. tally_of (robot_hits pose seen cs) (strike M infinity S hit t))
          (look-strike hit t)
      ∙ sym (tally-keep hit (robot_hits pose (look M t.objects) cs) t)

  abbrev pub contact_of : Hit M Name → CollisionContact M Name
  contact_of h = h.contact

  abbrev pub result_of_hit : Hit M Name → CollisionResult M
  result_of_hit h = h.result

  tally-parts :
      (hs : List (Hit M Name)) (t : Tally M Name)
      → ((tally_of hs t).objects ≡ collide_all M (struck_all hs) t.objects)
        × (((tally_of hs t).contacts ≡ t.contacts ++ map contact_of hs)
            × ((tally_of hs t).collision_results ≡ t.collision_results ++ map result_of_hit hs))
  tally-parts [] t = (refl, (sym (append-nil t.contacts), sym (append-nil t.collision_results)))
  tally-parts (h ∷ hs) t =
      let rest = tally-parts hs (strike M infinity S (some h) t) in
      (
        rest.0 ∙ go h.struck,
        (
          rest.1.0 ∙ append_assoc t.contacts (h.contact ∷ []) (map contact_of hs),
          rest.1.1 ∙ append_assoc t.collision_results (h.result ∷ []) (map result_of_hit hs),
        ),
      )
    where
      go :
          (s : Option ℕ)
          → collide_all M (struck_all hs) (strike_object M s t.objects)
            ≡ collide_all M (struck_by s (struck_all hs)) t.objects
      go none = refl
      go (some i) = refl

  -- Whatever objects the loop stops on its way: the robot's contacts and their results are those
  -- that the candidates have with the objects as they were before the loop, in the order of the
  -- candidates, and the objects afterwards are those with on_collision called for each object hit.
  pub robot_contacts_lem :
      (pose : Pose2 M) (candidates : List ℕ) (objects : List (Object M))
      → let before : Tally M Name = record {
        objects = objects;
        contacts = [];
        collision_results = [];
      } in
        let after = resolve_robot M infinity S pose candidates before in
        let hits = robot_hits pose (look M objects) candidates in
        (after.contacts ≡ map contact_of hits)
        × ((after.collision_results ≡ map result_of_hit hits)
            × (after.objects ≡ collide_all M (struck_all hits) objects))
  robot_contacts_lem pose candidates objects =
      let before : Tally M Name = record {
        objects = objects;
        contacts = [];
        collision_results = [];
      } in
      let parts = tally-parts (robot_hits pose (look M objects) candidates) before in
      rw (resolve-tally pose candidates before) (parts.1.0, (parts.1.1, parts.0))
