-- ===== src/MsgHierarchy/Controller/Stable.antt =====
-- A consumer that is not destroyed keeps its mboxes.
use so5extra.Prelude.{ℕ, ◌≡◌, ◌≢◌, some, List, [], ◌∷◌, arith, Ord, nat_ord, ==_iff, All}
use so5extra.Std.Map.{IsSorted}
use so5extra.MsgHierarchy.Upcaster.{TypeIndex}
use so5extra.MsgHierarchy.Controller.{Environment, Controller, creator, acquire_receiving_mbox_for}
use so5extra.MsgHierarchy.Controller.Requests.{
  Request, wants, leaves, mbox_of, step, run, step-IsSorted, step-mbox_of, acquire_with_there,
}

abbrev pub Stays : {C : Type 0} → ℕ → Request C → Type 0
Stays q (wants id t) = Unit
Stays q (leaves id) = id ≢ q

module _ {C E B : Type 0} ⦃o : Ord (TypeIndex C)⦄ (env : Environment E B) where
  acquire_there :
      (c : Controller C B) (e : E) (id : ℕ) (t : TypeIndex C) (mbox : B)
      → mbox_of id t c ≡ some mbox
      → (acquire_receiving_mbox_for env id t c e).0 ≡ mbox
  unfolding acquire_receiving_mbox_for
  acquire_there c e id t mbox h = acquire_with_there (creator env c.mbox_type) id t c e mbox h

  step_keeps :
      (c : Controller C B) (e : E) (r : Request C) (q : ℕ) (u : TypeIndex C) (mbox : B)
      → IsSorted c.consumers_with_mboxes
      → Stays q r
      → mbox_of q u c ≡ some mbox
      → mbox_of q u (step env (c, e) r).0 ≡ some mbox
  step_keeps c e (leaves id) q u mbox s stay h =
      ground (arith, step-mbox_of env c e (leaves id) q u s, ==_iff id q)
  step_keeps c e (wants id t) q u mbox s stay h = ground (
    arith,
    step-mbox_of env c e (wants id t) q u s,
    acquire_there c e id t mbox,
    ==_iff id q,
    o.eqb_iff t u,
  )

  run_keeps :
      (rs : List (Request C)) (c : Controller C B) (e : E) (q : ℕ) (u : TypeIndex C) (mbox : B)
      → IsSorted c.consumers_with_mboxes
      → All (Stays q) rs
      → mbox_of q u c ≡ some mbox
      → mbox_of q u (run env (c, e) rs).0 ≡ some mbox
  unfolding run
  run_keeps [] c e q u mbox s stay h = h
  run_keeps (r ∷ rs) c e q u mbox s stay h =
      let (c', e') = step env (c, e) r in
      run_keeps rs c' e' q u mbox (step-IsSorted env c e r s) stay.1
        (step_keeps c e r q u mbox s stay.0 h)

  -- The mbox that `acquire_receiving_mbox_for` returns is returned again for the same consumer and type,
  -- after any other requests among which the consumer is not destroyed.
  pub acquire_again :
      (rs : List (Request C)) (c : Controller C B) (e : E) (q : ℕ) (u : TypeIndex C)
      → IsSorted c.consumers_with_mboxes
      → All (Stays q) rs
      → let (c', e') = run env (step env (c, e) (wants q u)) rs in
        (acquire_receiving_mbox_for env q u c' e').0 ≡ (acquire_receiving_mbox_for env q u c e).0
  acquire_again rs c e q u s stay =
      let (c₁, e₁) = step env (c, e) (wants q u) in
      let (c₂, e₂) = run env (c₁, e₁) rs in
      let mbox = (acquire_receiving_mbox_for env q u c e).0 in
      let there : mbox_of q u c₁ ≡ some mbox =
        ground (arith, step-mbox_of env c e (wants q u) q u s, ==_iff q q, o.eqb_iff u u) in
      acquire_there c₂ e₂ q u mbox
        (run_keeps rs c₁ e₁ q u mbox (step-IsSorted env c e (wants q u) s) stay there)
