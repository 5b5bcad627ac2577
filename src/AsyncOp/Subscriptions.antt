-- ===== src/AsyncOp/Subscriptions.antt =====
-- The subscriptions of the agent that owns an operation, which are SObjectizer's and a parameter, and
-- the loops of dev/so_5_extra/async_op over them.
pub mod Loops
use so5extra.Prelude.{Bool, true, false, List, [], ◌∷◌, ◌++◌, ◌≡◌}
use so5extra.So5.{Error, Result, ok, throw}

-- The subscriptions of the owner, in a state `O`: `so_create_event_subscription` and
-- `so_create_deadletter_subscription`, which may throw and then change nothing, and the two functions
-- that destroy.
pub record Subscriptions (K O : Type 0) : Type 0 where
  pub create : K → O → Result O
  pub destroy : K → O → O
  pub holds : K → O → Bool

pub record IsSubscriptions {K O : Type 0} (s : Subscriptions K O) : Type 0 where
  pub create_self : (k : K) (o o' : O) → s.create k o ≡ ok o' → s.holds k o' ≡ true
  pub create_keeps :
      (k q : K) (o o' : O) → s.create k o ≡ ok o' → s.holds q o ≡ true → s.holds q o' ≡ true
  pub destroy_self : (k : K) (o : O) → s.holds k (s.destroy k o) ≡ false
  pub destroy_keeps : (k q : K) (o : O) → s.holds q o ≡ false → s.holds q (s.destroy k o) ≡ false

module _ {K O : Type 0} (s : Subscriptions K O) where
  unfoldable pub drop_each : List K → O → O
  drop_each [] o = o
  drop_each (k ∷ ks) o = drop_each ks (s.destroy k o)

  -- A loop of subscriptions, with the rollback of those that are made.
  unfoldable pub create_each : List K → List K → O → O × Result (Unit {0})
  unfolding drop_each
  create_each made [] o = (o, ok tt)
  create_each made (k ∷ ks) o = elim (s.create k o) [
    | ok o' ↦ create_each (made ++ k ∷ []) ks o'
    | throw e ↦ (drop_each made o, throw e)
  ]
