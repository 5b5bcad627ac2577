-- ===== src/AsyncOp/TimeUnlimited/Ends.antt =====
-- The first end of an operation that is activated is the only one.
use so5extra.Prelude.{
  ℕ, zero, suc, ◌≡◌, refl, Bool, true, false, Option, none, some, ◌⊎◌, List, [], ◌∷◌, arith,
  get_elem?, All, sym, some_inj, subst,
}
use so5extra.So5.{Result, ok}
use so5extra.AsyncOp.Subscriptions.{Subscriptions, IsSubscriptions, create_each}
use so5extra.AsyncOp.Subscriptions.Loops.{AllHeld, NoneHeld, drop_self, create_self}
use so5extra.AsyncOp.TimeUnlimited.{
  Status, activated, completed, cancelled, World, is_activated, is_cancellable, cleanup,
  destroy_and_clear_subscriptions, create_subscriptions, activate_op, cancel_op, completed_op,
  cancel, destroy_definition_point, activate, handle,
}

-- What may happen to an operation: a message for a subscription, and the calls of its points.
pub data Event (K : Type 0) : Type 0 where
  message : K → Event K
  cancels cleans_up destroys : Event K

module _ {K O : Type 0} (s : Subscriptions K O) where
  unfoldable pub step : Event K → World K → O → World K × O
  step (message k) w o = handle s k w o
  step cancels w o = cancel s w o
  step cleans_up w o = (cleanup w, o)
  step destroys w o = destroy_definition_point s w o

  unfoldable pub run : List (Event K) → World K → O → World K × O
  unfolding step
  run [] w o = (w, o)
  run (e ∷ es) w o = let (w', o') = step e w o in run es w' o'

module _ {K : Type 0} where
  -- The messages are those of subscriptions `ks`.
  abbrev pub AreOwn : List K → List (Event K) → Type 0
  AreOwn ks [] = Unit
  AreOwn ks (message k ∷ es) = ((i : ℕ) × (get_elem? ks i ≡ some k)) × AreOwn ks es
  AreOwn ks (cancels ∷ es) = AreOwn ks es
  AreOwn ks (cleans_up ∷ es) = AreOwn ks es
  AreOwn ks (destroys ∷ es) = AreOwn ks es

module _ {K O : Type 0} (s : Subscriptions K O) where
  held_at :
      (b : Bool) (ks : List K) (i : ℕ) (k : K) (o : O)
      → All (λ q. s.holds q o ≡ b) ks
      → get_elem? ks i ≡ some k
      → s.holds k o ≡ b
  held_at b [] i k o h e = ground (arith, e)
  held_at b (x ∷ ks) zero k o h e = subst (λ q. s.holds q o ≡ b) (some_inj.0 e) h.0
  held_at b (x ∷ ks) (suc i) k o h e = held_at b ks i k o h.1 e

  -- What is left of the operation when it has come to an end.
  pub record HasEnded (status : Status) (ks : List K) (w : World K) (o : O) : Type 0 where
    pub status_set : w.op.status ≡ status
    pub cleared : w.op.subscriptions ≡ []
    pub unsubscribed : NoneHeld s ks o

  activate-ok :
      (action : Result (Unit {0})) (w : World K) (o : O)
      → (activate s action w o).2 ≡ ok tt
      → ((create_each s [] w.op.subscriptions o).1 ≡ ok tt)
        × (activate s action w o ≡ (
          record {
            op = record w.op { status = activated };
            definition_point = false;
            cancellation_point = true;
          },
          (create_each s [] w.op.subscriptions o).0,
          ok tt,
        ))
  unfolding activate activate_op create_subscriptions
  activate-ok action w o done = ground (arith, done)

-- The status that an event gives to an operation that it finds activated.
abbrev pub end_of : {K : Type 0} → Event K → Option Status
end_of (message k) = some completed
end_of cancels = some cancelled
end_of cleans_up = none
end_of destroys = none

end-cases :
    {K : Type 0} (e : Event K) (st : Status)
    → end_of e ≡ some st
    → (st ≡ completed) ⊎ (st ≡ cancelled)
end-cases (message k) st f = ground (arith, f)
end-cases cancels st f = ground (arith, f)
end-cases cleans_up st f = cc
end-cases destroys st f = cc

module _ {K O : Type 0} (s : Subscriptions K O) where
  step-HasEnded :
      (e : Event K) (es : List (Event K)) (st : Status) (ks : List K) (w : World K) (o : O)
      → (st ≡ completed) ⊎ (st ≡ cancelled)
      → AreOwn ks (e ∷ es)
      → HasEnded s st ks w o
      → (HasEnded s st ks (step s e w o).0 (step s e w o).1) × AreOwn ks es
  unfolding step handle cancel is_cancellable is_activated cleanup destroy_definition_point
      cancel_op
  step-HasEnded (message k) es st ks w o f ((i, g), own) v =
      (ground (arith, held_at s false ks i k o v.unsubscribed g), own)
  step-HasEnded cancels es st ks w o f own v = (ground arith, own)
  step-HasEnded cleans_up es st ks w o f own v = (ground arith, own)
  step-HasEnded destroys es st ks w o f own v = (ground arith, own)

  run-HasEnded :
      (es : List (Event K)) (st : Status) (ks : List K) (w : World K) (o : O)
      → (st ≡ completed) ⊎ (st ≡ cancelled)
      → AreOwn ks es
      → HasEnded s st ks w o
      → HasEnded s st ks (run s es w o).0 (run s es w o).1
  unfolding run
  run-HasEnded [] st ks w o f own v = v
  run-HasEnded (e ∷ es) st ks w o f own v =
      let (v', own') = step-HasEnded e es st ks w o f own v in
      let (w', o') = step s e w o in run-HasEnded es st ks w' o' f own' v'

module _ {K O : Type 0} (s : Subscriptions K O) (law : IsSubscriptions s) where
  end-HasEnded :
      (e : Event K) (st : Status) (w : World K) (o : O)
      → end_of e ≡ some st
      → w.op.status ≡ activated
      → w.cancellation_point ≡ true
      → AllHeld s w.op.subscriptions o
      → AreOwn w.op.subscriptions (e ∷ [])
      → HasEnded s st w.op.subscriptions (step s e w o).0 (step s e w o).1
  unfolding step handle cancel is_cancellable is_activated cancel_op completed_op
      destroy_and_clear_subscriptions
  end-HasEnded (message k) st w o f a c h ((i, g), own) =
      ground
        (arith, held_at s true w.op.subscriptions i k o h g, drop_self s law w.op.subscriptions o)
  end-HasEnded cancels st w o f a c h own = ground (arith, drop_self s law w.op.subscriptions o)
  end-HasEnded cleans_up st w o f a c h own = cc
  end-HasEnded destroys st w o f a c h own = cc

  -- If `activate` returns, then the first message for one of the subscriptions, or the first call of
  -- `cancel`, settles the end: whatever comes later for these subscriptions or from the points, the
  -- operation stays completed or cancelled, it holds no handlers, and the owner has none of its
  -- subscriptions.
  pub activate-HasEnded :
      (action : Result (Unit {0})) (e : Event K) (es : List (Event K)) (st : Status) (w : World K)
      (o : O)
      → (activate s action w o).2 ≡ ok tt
      → end_of e ≡ some st
      → AreOwn w.op.subscriptions (e ∷ [])
      → AreOwn w.op.subscriptions es
      → let (w', o', done) = activate s action w o in
        let (w'', o'') = run s (e ∷ es) w' o' in HasEnded s st w.op.subscriptions w'' o''
  unfolding run
  activate-HasEnded action e es st w o done f own later =
      let ks = w.op.subscriptions in
      let (made, same) = activate-ok s action w o done in
      let w₁ : World K = record {
        op = record w.op { status = activated };
        definition_point = false;
        cancellation_point = true;
      } in
      let o₁ = (create_each s [] ks o).0 in
      let (w₂, o₂) = step s e w₁ o₁ in
      let ended = end-HasEnded e st w₁ o₁ f refl refl (create_self s law [] ks o made) own in
      subst (λ r. HasEnded s st ks (run s (e ∷ es) r.0 r.1).0 (run s (e ∷ es) r.0 r.1).1) (sym same)
        (run-HasEnded s es st ks w₂ o₂ (end-cases e st f) later ended)
