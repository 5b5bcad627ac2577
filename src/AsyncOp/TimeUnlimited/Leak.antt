-- ===== src/AsyncOp/TimeUnlimited/Leak.antt =====
-- An activation that fails at a subscription leaves an operation that nobody can clear.
use so5extra.Prelude.{◌≡◌, refl, ◌∙◌, ap, true, false, List, [], ◌∷◌, arith}
use so5extra.So5.{Error, Result, throw}
use so5extra.AsyncOp.Subscriptions.{Subscriptions, create_each}
use so5extra.AsyncOp.TimeUnlimited.{
  not_activated, World, is_activated, is_activable, is_cancellable, cleanup, create_subscriptions,
  activate_op, cancel, destroy_definition_point, activate,
}
use so5extra.AsyncOp.TimeUnlimited.Ends.{Event, message, cancels, cleans_up, destroys, step, run}

module _ {K : Type 0} where
  -- There are calls of the points only.
  abbrev pub ArePointCalls : List (Event K) → Type 0
  ArePointCalls [] = Unit
  ArePointCalls (message k ∷ es) = ⊥
  ArePointCalls (cancels ∷ es) = ArePointCalls es
  ArePointCalls (cleans_up ∷ es) = ArePointCalls es
  ArePointCalls (destroys ∷ es) = ArePointCalls es

module _ {K O : Type 0} (s : Subscriptions K O) where
  out_of_reach :
      (es : List (Event K)) (w : World K) (o : O)
      → w.definition_point ≡ false
      → w.cancellation_point ≡ false
      → ArePointCalls es
      → (run s es w o).0.op ≡ w.op
  unfolding run step cancel is_cancellable cleanup destroy_definition_point
  out_of_reach [] w o d c p = refl
  out_of_reach (message k ∷ es) w o d c p = absurd p
  out_of_reach (cancels ∷ es) w o d c p = ground (arith, out_of_reach es w o d c p)
  out_of_reach (cleans_up ∷ es) w o d c p =
      out_of_reach es (record w { cancellation_point = false }) o d refl p
  out_of_reach (destroys ∷ es) w o d c p = ground (arith, out_of_reach es w o d c p)

  failed_activation :
      (action : Result (Unit {0})) (e : Error) (w : World K) (o : O)
      → is_activable w ≡ true
      → w.op.status ≡ not_activated
      → (create_each s [] w.op.subscriptions o).1 ≡ throw e
      → activate s action w o ≡ (
        record w { definition_point = false },
        (create_each s [] w.op.subscriptions o).0,
        throw e,
      )
  unfolding activate activate_op create_subscriptions is_activable is_activated
  failed_activation action e w o a n f = ground (arith, a, n, f)

  -- If a subscription cannot be made, `activate` throws the exception of this subscription, and the
  -- operation keeps all its handlers, which point to it, for good: no later call of `cancel`, of `cleanup`
  -- or of the destructor of the definition point clears them, since neither point holds it any more.
  pub failed-never_cleared :
      (action : Result (Unit {0})) (e : Error) (w : World K) (o : O) (es : List (Event K))
      → is_activable w ≡ true
      → w.op.status ≡ not_activated
      → w.cancellation_point ≡ false
      → (create_each s [] w.op.subscriptions o).1 ≡ throw e
      → ArePointCalls es
      → let (w', o', done) = activate s action w o in
        (done ≡ throw e) × ((run s es w' o').0.op ≡ w.op)
  failed-never_cleared action e w o es a n c f p =
      let same = failed_activation action e w o a n f in
      (
        ap (λ r. r.2) same,
        ap (λ r. (run s es r.0 r.1).0.op) same
            ∙ out_of_reach es (record w { definition_point = false })
                (create_each s [] w.op.subscriptions o).0 refl c p,
      )
