-- ===== src/Mboxes/Network.antt =====
-- Broadcast mboxes and proxies over one another: where a message goes through such a network. `L` stands for
-- the mboxes that are neither, and `act` for their `do_deliver_message`.
mod Tests
use so5extra.Prelude.{
  ℕ, ◌≡◌, refl, sym, ◌∙◌, ap, Option, none, some, List, [], ◌∷◌, ◌++◌, arith, inl, inr,
}
use so5extra.So5.{
  Error, Mutability, immutable_message, mutable_message,
  rc_mutable_msg_cannot_be_delivered_via_mpmc_mbox, Result, ok, throw, Delivery, Result-cases,
}
use so5extra.Mboxes.Broadcast
use so5extra.Mboxes.Proxy

-- The destinations of a broadcast mbox are known when it is made, so that there are no cycles.
mutual
  pub data Node (L : Type 0) : Type 0 where
    leaf : L → Node L
    proxy : Node L → Node L
    broadcast : ℕ → Nodes L → Node L

  pub data Nodes (L : Type 0) : Type 0 where
    nil : Nodes L
    cons : Node L → Nodes L → Nodes L

-- A mbox as its callers see it.
abbrev pub Deliver : Type 0 → Type 0 → Type 0 → Type 0
Deliver T M O = Delivery T M → O → O × Result (Unit {0})

abbrev call : {T M O : Type 0} → Deliver T M O → Deliver T M O
call f d o = f d o

module _ {T M O L : Type 0} (message_mutability : M → Mutability) (act : L → Deliver T M O) where
  unfoldable mutual
    pub deliver : Node L → Deliver T M O
    deliver (leaf l) d o = act l d o
    deliver (proxy n) d o =
        Proxy.do_deliver_message call d (record { underlying_mbox = deliver n }) o
    deliver (broadcast id ns) d o =
        Broadcast.do_deliver_message call message_mutability d (Broadcast.make id (mboxes ns)) o

    pub mboxes : Nodes L → List (Deliver T M O)
    mboxes nil = []
    mboxes (cons n ns) = deliver n ∷ mboxes ns

mutual
  -- The leaves in the order in which they are reached; one that is reached twice stands there twice.
  pub leaves : {L : Type 0} → Node L → List L
  leaves (leaf l) = l ∷ []
  leaves (proxy n) = leaves n
  leaves (broadcast id ns) = all_leaves ns

  pub all_leaves : {L : Type 0} → Nodes L → List L
  all_leaves nil = []
  all_leaves (cons n ns) = leaves n ++ all_leaves ns

module _ {D T M O : Type 0} (f : D → Deliver T M O) where
  then_each : List D → Delivery T M → O × Result (Unit {0}) → O × Result (Unit {0})
  then_each ys d (o, throw e) = (o, throw e)
  then_each ys d (o, ok u) = Broadcast.deliver_to_each f ys d o

  each-append :
      (xs ys : List D) (d : Delivery T M) (o : O)
      → Broadcast.deliver_to_each f (xs ++ ys) d o
        ≡ then_each ys d (Broadcast.deliver_to_each f xs d o)
  unfolding then_each Broadcast.deliver_to_each
  each-append [] ys d o = refl
  each-append (x ∷ xs) ys d o = elim (Result-cases (f x d o).1) [
    | inl (u, h) ↦ ground (arith, h, each-append xs ys d (f x d o).0)
    | inr (e, h) ↦ ground (arith, h)
  ]

  each-single :
      (x : D) (d : Delivery T M) (o : O) → Broadcast.deliver_to_each f (x ∷ []) d o ≡ f x d o
  unfolding Broadcast.deliver_to_each
  each-single x d o = go (f x d o)
    where
      go :
          (r : O × Result (Unit {0}))
          → (elim r.1 as (λ _. O × Result (Unit {0})) [
            | throw e ↦ (r.0, throw e)
            | ok _ ↦ (r.0, ok tt)
          ])
            ≡ r
      go (o', throw e) = refl
      go (o', ok u) = refl

module _ {T M O L : Type 0} (act : L → Deliver T M O) (d : Delivery T M) where
  -- The visit of the leaves, the first of the list first, from the state and the result so far.
  unfoldable pub in_turn : List L → O × Result (Unit {0}) → O × Result (Unit {0})
  in_turn [] r = r
  in_turn (l ∷ ls) (o, throw e) = (o, throw e)
  in_turn (l ∷ ls) (o, ok u) = in_turn ls (act l d o)

  in_turn-thrown : (ls : List L) (o : O) (e : Error) → in_turn ls (o, throw e) ≡ (o, throw e)
  unfolding in_turn
  in_turn-thrown [] o e = refl
  in_turn-thrown (l ∷ ls) o e = refl

  each-in_turn :
      (ls : List L) (o : O) → Broadcast.deliver_to_each act ls d o ≡ in_turn ls (o, ok tt)
  unfolding Broadcast.deliver_to_each in_turn
  each-in_turn [] o = refl
  each-in_turn (l ∷ ls) o = elim (Result-cases (act l d o).1) [
    | inl (u, h) ↦ rw (h, Broadcast.deliver_to_each) (each-in_turn ls (act l d o).0)
    | inr (e, h) ↦ rw (h, Broadcast.deliver_to_each) (sym (in_turn-thrown ls (act l d o).0 e))
  ]

module _ {T M O L : Type 0} (message_mutability : M → Mutability) (act : L → Deliver T M O)
    (d : Delivery T M) where
  module _ (immutable : message_mutability d.message ≡ immutable_message) where
    mutual
      unfolding deliver leaves then_each Broadcast.do_deliver_message Proxy.do_deliver_message
          Broadcast.make Broadcast.deliver_to_each

      deliver-immutable :
          (n : Node L) (o : O)
          → deliver message_mutability act n d o ≡ Broadcast.deliver_to_each act (leaves n) d o
      deliver-immutable (leaf l) o = sym (each-single act l d o)
      deliver-immutable (proxy n) o = deliver-immutable n o
      deliver-immutable (broadcast id ns) o =
          rw (immutable, Broadcast.do_deliver_message) (each-leaves ns o)

      each-leaves :
          (ns : Nodes L) (o : O)
          → Broadcast.deliver_to_each call (mboxes message_mutability act ns) d o
            ≡ Broadcast.deliver_to_each act (all_leaves ns) d o
      each-leaves nil o = refl
      each-leaves (cons n ns) o =
          let (o', done) = deliver message_mutability act n d o in
          ground (
            arith,
            deliver-immutable n o,
            each-append act (leaves n) (all_leaves ns) d o,
            each-leaves ns o',
          )

-- The leaf that is reached without a broadcast mbox.
pub direct : {L : Type 0} → Node L → Option L
direct (leaf l) = some l
direct (proxy n) = direct n
direct (broadcast id ns) = none

module _ {T M O L : Type 0} (message_mutability : M → Mutability) (act : L → Deliver T M O) where
  unfoldable pub outcome : Mutability → Node L → Deliver T M O
  unfolding leaves direct in_turn
  outcome immutable_message n d o = in_turn act d (leaves n) (o, ok tt)
  outcome mutable_message n d o = elim (direct n) [
    | none ↦ (o, throw rc_mutable_msg_cannot_be_delivered_via_mpmc_mbox)
    | some l ↦ act l d o
  ]

  deliver-mutable :
      (n : Node L) (d : Delivery T M) (o : O)
      → message_mutability d.message ≡ mutable_message
      → deliver message_mutability act n d o ≡ outcome mutable_message n d o
  unfolding deliver outcome Broadcast.do_deliver_message Proxy.do_deliver_message
  deliver-mutable (leaf l) d o h = refl
  deliver-mutable (proxy n) d o h = deliver-mutable n d o h
  deliver-mutable (broadcast id ns) d o h = rw (h, Broadcast.do_deliver_message) refl

  deliver-by :
      (m : Mutability) (n : Node L) (d : Delivery T M) (o : O)
      → message_mutability d.message ≡ m
      → deliver message_mutability act n d o ≡ outcome m n d o
  unfolding outcome
  deliver-by immutable_message n d o h =
      deliver-immutable message_mutability act d h n o ∙ each-in_turn act d (leaves n) o
  deliver-by mutable_message n d o h = deliver-mutable n d o h

  -- Through any network of broadcast mboxes and proxies an immutable message is delivered to the
  -- leaves from left to right, to each as often as it is reached, until one of them throws, and this exception
  -- comes back to the sender. A mutable message is delivered only if no broadcast mbox is on its way;
  -- else nobody receives it and the sender gets an exception.
  pub deliver-outcome :
      (n : Node L) (d : Delivery T M) (o : O)
      → deliver message_mutability act n d o ≡ outcome (message_mutability d.message) n d o
  deliver-outcome n d o = deliver-by (message_mutability d.message) n d o refl
