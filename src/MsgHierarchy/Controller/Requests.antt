-- ===== src/MsgHierarchy/Controller/Requests.antt =====
-- The mboxes that a controller keeps, after any requests of its consumers.
use so5extra.Prelude.{
  ℕ, ◌≡◌, refl, ap, ◌∙◌, Bool, true, false, not, ◌&&◌, ◌||◌, Option, none, some, List, [], ◌∷◌,
  arith, Ord, nat_ord, ◌==◌, ==_iff, if◌then◌else◌,
}
use so5extra.Std.Map
use so5extra.Std.Map.{IsSorted}
use so5extra.MsgHierarchy.Upcaster.{TypeIndex}
use so5extra.MsgHierarchy.Controller.{
  Environment, Controller, consumer_destroyed, creator, find_or_create, consumer_map_of,
  acquire_with, acquire_receiving_mbox_for,
}

-- The calls for a consumer: of `receiving_mbox`, and of its destructor.
pub data Request (C : Type 0) : Type 0 where
  wants : ℕ → TypeIndex C → Request C
  leaves : ℕ → Request C

abbrev pub is_some : {A : Type 0} → Option A → Bool
is_some none = false
is_some (some a) = true

module _ {C B : Type 0} ⦃o : Ord (TypeIndex C)⦄ where
  -- The mbox of a consumer for a type.
  unfoldable pub mbox_of : ℕ → TypeIndex C → Controller C B → Option B
  mbox_of id t c = Map.find t (consumer_map_of id c.consumers_with_mboxes)

module _ {C : Type 0} ⦃o : Ord (TypeIndex C)⦄ where
  -- Whether the consumer has asked for the type since it was destroyed last, or had an mbox at the start.
  unfoldable pub asked : ℕ → TypeIndex C → Bool → List (Request C) → Bool
  asked id t before [] = before
  asked id t before (wants i u ∷ rs) = asked id t (before || i == id && o.eqb u t) rs
  asked id t before (leaves i ∷ rs) = asked id t (before && not (i == id)) rs

module _ {C E B : Type 0} ⦃o : Ord (TypeIndex C)⦄ (env : Environment E B) where
  unfoldable pub step : Controller C B × E → Request C → Controller C B × E
  step (c, e) (wants id t) =
      let (mbox, c', e') = acquire_receiving_mbox_for env id t c e in (c', e')
  step (c, e) (leaves id) = (consumer_destroyed id c, e)

  unfoldable pub run : Controller C B × E → List (Request C) → Controller C B × E
  unfolding step
  run s [] = s
  run s (r ∷ rs) = run (step s r) rs

module _ {C E B : Type 0} ⦃o : Ord (TypeIndex C)⦄ (create : E → B × E) where
  -- What `acquire_receiving_mbox_for` leaves and returns.
  pub mbox_of-acquire_with :
      (id q : ℕ) (t u : TypeIndex C) (c : Controller C B) (e : E)
      → mbox_of q u (acquire_with create id t c e).1
        ≡ (if id == q && o.eqb t u then some (acquire_with create id t c e).0 else mbox_of q u c)
  unfolding mbox_of acquire_with consumer_map_of find_or_create
  mbox_of-acquire_with id q t u c e = ground (
    arith,
    ==_iff id q,
    o.eqb_iff t u,
    Map.find-modify id q
        (λ _.
          (find_or_create create t (consumer_map_of id (Map.emplace id [] c.consumers_with_mboxes))
            e).1)
        (Map.emplace id [] c.consumers_with_mboxes),
    Map.find-emplace id q [] c.consumers_with_mboxes,
    Map.find-emplace id id [] c.consumers_with_mboxes,
    Map.find-emplace t u (create e).0
        (consumer_map_of id (Map.emplace id [] c.consumers_with_mboxes)),
  )

  -- A mbox that is there is returned, and nothing is created.
  pub acquire_with_there :
      (id : ℕ) (t : TypeIndex C) (c : Controller C B) (e : E) (mbox : B)
      → mbox_of id t c ≡ some mbox
      → (acquire_with create id t c e).0 ≡ mbox
  unfolding mbox_of acquire_with consumer_map_of find_or_create
  acquire_with_there id t c e mbox h =
      ground (arith, Map.find-emplace id id [] c.consumers_with_mboxes, ==_iff id id)

  acquire_with-IsSorted :
      (id : ℕ) (t : TypeIndex C) (c : Controller C B) (e : E)
      → IsSorted c.consumers_with_mboxes
      → IsSorted (acquire_with create id t c e).1.consumers_with_mboxes
  unfolding acquire_with
  acquire_with-IsSorted id t c e s =
      Map.modify-IsSorted id _ _ (Map.emplace-IsSorted id [] c.consumers_with_mboxes s)

module _ {C B : Type 0} ⦃o : Ord (TypeIndex C)⦄ where
  pub mbox_of-destroyed :
      (id q : ℕ) (u : TypeIndex C) (c : Controller C B)
      → IsSorted c.consumers_with_mboxes
      → mbox_of q u (consumer_destroyed id c) ≡ (if id == q then none else mbox_of q u c)
  unfolding mbox_of consumer_destroyed consumer_map_of Map.find
  mbox_of-destroyed id q u c s = ground (arith, Map.find-erase id q c.consumers_with_mboxes s)

module _ {C E B : Type 0} ⦃o : Ord (TypeIndex C)⦄ (env : Environment E B) where
  pub step-IsSorted :
      (c : Controller C B) (e : E) (r : Request C)
      → IsSorted c.consumers_with_mboxes
      → IsSorted (step env (c, e) r).0.consumers_with_mboxes
  unfolding step acquire_receiving_mbox_for consumer_destroyed
  step-IsSorted c e (leaves id) s = Map.erase-IsSorted id c.consumers_with_mboxes s
  step-IsSorted c e (wants id t) s = acquire_with-IsSorted (creator env c.mbox_type) id t c e s

  -- What becomes of the mbox of a consumer for a type at a call.
  pub step-mbox_of :
      (c : Controller C B) (e : E) (r : Request C) (q : ℕ) (u : TypeIndex C)
      → IsSorted c.consumers_with_mboxes
      → mbox_of q u (step env (c, e) r).0 ≡ elim r [
        | wants id t ↦
            if id == q && o.eqb t u
            then some (acquire_receiving_mbox_for env id t c e).0
            else mbox_of q u c
        | leaves id ↦ if id == q then none else mbox_of q u c
      ]
  unfolding step acquire_receiving_mbox_for
  step-mbox_of c e (leaves id) q u s = mbox_of-destroyed id q u c s
  step-mbox_of c e (wants id t) q u s = mbox_of-acquire_with (creator env c.mbox_type) id q t u c e

  pub run-asked :
      (rs : List (Request C)) (c : Controller C B) (e : E) (q : ℕ) (u : TypeIndex C)
      → IsSorted c.consumers_with_mboxes
      → is_some (mbox_of q u (run env (c, e) rs).0) ≡ asked q u (is_some (mbox_of q u c)) rs
  unfolding run asked
  run-asked [] c e q u s = refl
  run-asked (wants id t ∷ rs) c e q u s =
      let (c', e') = step env (c, e) (wants id t) in
      run-asked rs c' e' q u (step-IsSorted c e (wants id t) s)
      ∙ ap (λ b. asked q u b rs) (ground (arith, step-mbox_of c e (wants id t) q u s))
  run-asked (leaves id ∷ rs) c e q u s =
      let (c', e') = step env (c, e) (leaves id) in
      run-asked rs c' e' q u (step-IsSorted c e (leaves id) s)
      ∙ ap (λ b. asked q u b rs) (ground (arith, step-mbox_of c e (leaves id) q u s))
