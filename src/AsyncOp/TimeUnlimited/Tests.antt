-- ===== src/AsyncOp/TimeUnlimited/Tests.antt =====
-- Subscriptions that obey the laws, and the theorems on the time-unlimited operation at concrete inputs.
use so5extra.Prelude.{ℕ, ◌≡◌, refl, sym, ap, Bool, true, false, [], ◌∷◌, arith, ◌==◌, if◌then◌else◌}
use so5extra.So5.{rc_not_implemented, Result, ok, throw, ◌>>=◌}
use so5extra.AsyncOp.Subscriptions.{Subscriptions, IsSubscriptions, create_each}
use so5extra.AsyncOp.TimeUnlimited.{
  World, make, completed_on, not_activated, completed, activate, activate_op, is_activable,
}
use so5extra.AsyncOp.TimeUnlimited.Ends.{
  message, cancels, cleans_up, destroys, run, HasEnded, activate-HasEnded,
}
use so5extra.AsyncOp.TimeUnlimited.Leak.{failed-never_cleared}

-- The subscriptions as a function; to subscribe twice is an error.
abbrev table : Subscriptions ℕ (ℕ → Bool)
table = record {
  create = λ k o. if o k then throw rc_not_implemented else ok (λ q. if k == q then true else o q);
  destroy = λ k o q. if k == q then false else o q;
  holds = λ k o. o k;
}

abbrev value : (ℕ → Bool) → Result (ℕ → Bool) → ℕ → Bool
value blank (ok o) = o
value blank (throw e) = blank

-- What `create` makes, at a key.
created :
    (taken : Bool) (k q : ℕ) (o o' : ℕ → Bool)
    → (if taken then throw rc_not_implemented else ok (λ i. if k == i then true else o i)) ≡ ok o'
    → o' q ≡ (if k == q then true else o q)
created true k q o o' h = cc
created false k q o o' h = sym (ap (λ r. value o r q) h)

table-IsSubscriptions : IsSubscriptions table
table-IsSubscriptions = record {
  create_self = λ k o o' h. ground (arith, created (o k) k k o o' h);
  create_keeps = λ k q o o' h g. ground (arith, created (o k) k q o o' h);
  destroy_self = λ k o. ground arith;
  destroy_keeps = λ k q o h. ground (arith, h);
}

abbrev request : World ℕ
request = record {
  op = record { status = not_activated; subscriptions = 4 ∷ 7 ∷ [] };
  definition_point = true;
  cancellation_point = false;
}

abbrev nobody : ℕ → Bool
nobody k = false

abbrev second_taken : ℕ → Bool
second_taken k = k == 7

defined : (do w ← completed_on 4 (make {K = ℕ}); completed_on 7 w) ≡ ok request
unfolding completed_on make
defined = refl

accepted : (activate table (ok tt) request nobody).2 ≡ ok tt
unfolding activate activate_op create_each
accepted = refl

refused : (create_each table [] (4 ∷ 7 ∷ []) second_taken).1 ≡ throw rc_not_implemented
unfolding create_each
refused = refl

ready : is_activable request ≡ true
unfolding is_activable
ready = refl

activate-HasEnded_example :
    let (w', o', done) = activate table (ok tt) request nobody in
    let (w'', o'') = run table (message 7 ∷ cancels ∷ message 4 ∷ cleans_up ∷ []) w' o' in
    HasEnded table completed (4 ∷ 7 ∷ []) w'' o''
activate-HasEnded_example =
    activate-HasEnded table table-IsSubscriptions (ok tt) (message 7)
      (cancels ∷ message 4 ∷ cleans_up ∷ []) completed request nobody accepted refl ((1, refl), tt)
      ((0, refl), tt)

failed-never_cleared_example :
    let (w', o', done) = activate table (ok tt) request second_taken in
    (done ≡ throw rc_not_implemented)
    × ((run table (cancels ∷ cleans_up ∷ destroys ∷ []) w' o').0.op ≡ request.op)
failed-never_cleared_example =
    failed-never_cleared table (ok tt) rc_not_implemented request second_taken
      (cancels ∷ cleans_up ∷ destroys ∷ []) ready refl refl refused tt
