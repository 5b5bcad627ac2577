-- ===== src/Mboxes/FirstLast/SingleConsumer.antt =====
-- A single-consumer mbox, and the methods that are `noexcept`.
use so5extra.Prelude.{
  ◌-◌, ◌%◌, ◌⊎◌, ℕ, ◌+◌, ◌≤◌, ◌≡◌, refl, Bool, false, List, [], ◌∷◌, arith, Ord, inl, inr,
  Option-cases, Bool-cases, length,
}
use so5extra.Std.Map
use so5extra.So5.{multi_producer_single_consumer, MboxRef, Mutability, ok, terminates}
use so5extra.So5.Subscription.{SubscriptionInfo}
use so5extra.Mboxes.FirstLast.{
  Mbox, size_mod, make, notify_first, notify_last, insert_or_modify_subscriber,
  modify_and_remove_subscriber_if_needed, subscribe_event_handler, unsubscribe_event_handler,
  set_delivery_filter, drop_delivery_filter,
}
use so5extra.Mboxes.FirstLast.Calls.{
  Call, subscribes, unsubscribes, sets_filter, drops_filter, after, step, run,
}

module _ {S I : Type 0} ⦃os : Ord S⦄ where
  List-cases : (m : List (S × I)) → (m ≡ []) ⊎ ((e : S × I) × ((r : List (S × I)) × (m ≡ e ∷ r)))
  List-cases [] = inl refl
  List-cases (e ∷ r) = inr (e, (r, refl))

  pub record IsSingle (b : Mbox S I) : Type 0 where
    pub type : b.mbox_type ≡ multi_producer_single_consumer
    pub one : length b.subscribers ≤ 1

  first-IsSingle : (b : Mbox S I) (post : ℕ → ℕ) → IsSingle b → IsSingle (notify_first post b).0
  unfolding notify_first
  first-IsSingle b post v = record { type = v.type; one = v.one }

  last-IsSingle : (b : Mbox S I) (post : ℕ → ℕ) → IsSingle b → IsSingle (notify_last post b).0
  unfolding notify_last
  last-IsSingle b post v = record { type = v.type; one = v.one }

  length-modify : (s : S) (f : I → I) (m : List (S × I)) → length (Map.modify s f m) ≡ length m
  unfolding Map.modify
  length-modify s f [] = refl
  length-modify s f (e ∷ m) = ground (arith, length-modify s f m)

  length-erase : (s : S) (m : List (S × I)) → length (Map.erase s m) ≤ length m
  unfolding Map.erase
  length-erase s [] = omega arith
  length-erase s (e ∷ m) = ground (arith, length-erase s m)

  insert-IsSingle :
      (s : S) (maker : I) (changer : I → I) (post : ℕ → ℕ) (b : Mbox S I)
      → IsSingle b
      → IsSingle (after b (insert_or_modify_subscriber s maker changer post b)).0
  unfolding insert_or_modify_subscriber notify_first Map.emplace
  insert-IsSingle s maker changer post b v = elim (Option-cases (Map.find s b.subscribers)) [
    | inl h ↦ elim (List-cases b.subscribers) [
      | inl nobody ↦ ground (arith, h, v.type, nobody)
      | inr (x, (rest, someone)) ↦ ground (arith, h, v.type, v.one, someone)
    ]
    | inr (w, h) ↦ ground (arith, h, v.type, v.one, length-modify s changer b.subscribers)
  ]

  remove-IsSingle :
      (is_empty : I → Bool) (s : S) (changer : I → I) (post : ℕ → ℕ) (b : Mbox S I)
      → IsSingle b
      → IsSingle (modify_and_remove_subscriber_if_needed is_empty s changer post b).0
  unfolding modify_and_remove_subscriber_if_needed notify_last
  remove-IsSingle is_empty s changer post b v = elim (Option-cases (Map.find s b.subscribers)) [
    | inl h ↦ rw (h, modify_and_remove_subscriber_if_needed) v
    | inr (w, h) ↦
        rw (h, modify_and_remove_subscriber_if_needed)
          (ground (
            arith,
            v.type,
            v.one,
            length-modify s changer b.subscribers,
            length-erase s (Map.modify s changer b.subscribers),
          ))
  ]

module _ {S I T F M : Type 0} ⦃os : Ord S⦄ ⦃ot : Ord T⦄ (msg_type : T)
    (o : SubscriptionInfo I S F M) where
  step-IsSingle : (b : Mbox S I) (c : Call T S F) → IsSingle b → IsSingle (step msg_type o b c).0
  unfolding step subscribe_event_handler unsubscribe_event_handler set_delivery_filter
      drop_delivery_filter
  step-IsSingle b (subscribes t s) v = elim (Bool-cases (ot.eqb t msg_type)) [
    | inl same ↦ rw same (
        insert-IsSingle s o.subscription_present o.subscription_defined
          (λ count. (count + 1) % size_mod) b v)
    | inr other ↦ rw other v
  ]
  step-IsSingle b (unsubscribes t s) v = elim (Bool-cases (ot.eqb t msg_type)) [
    | inl same ↦ rw same (
        remove-IsSingle o.empty s o.subscription_dropped
          (λ count. (count + size_mod - 1) % size_mod) b v)
    | inr other ↦ rw other v
  ]
  step-IsSingle b (sets_filter t f s) v = elim (Bool-cases (ot.eqb t msg_type)) [
    | inl same ↦ rw same (insert-IsSingle s (o.of_filter f) (o.set_filter f) (λ count. count) b v)
    | inr other ↦ rw other v
  ]
  step-IsSingle b (drops_filter t s) v = elim (Bool-cases (ot.eqb t msg_type)) [
    | inl same ↦ rw same (remove-IsSingle o.empty s o.drop_filter (λ count. count) b v)
    | inr other ↦ rw other v
  ]

  run-IsSingle :
      (b : Mbox S I) (cs : List (Call T S F)) → IsSingle b → IsSingle (run msg_type o b cs).0
  unfolding run
  run-IsSingle b [] v = v
  run-IsSingle b (c ∷ cs) v = run-IsSingle (step msg_type o b c).0 cs (step-IsSingle b c v)

  -- A single-consumer mbox never has more than one subscriber, whatever calls it gets.
  pub make-run-single :
      (mutability : Mutability) (id : ℕ) (target : MboxRef) (b : Mbox S I) (cs : List (Call T S F))
      → make mutability id target multi_producer_single_consumer ≡ ok b
      → length (run msg_type o b cs).0.subscribers ≤ 1
  unfolding make
  make-run-single mutability id target b cs made = (run-IsSingle b cs (ground (arith, made))).one

  -- A message type that is not the mbox's: `unsubscribe_event_handler` does nothing, while
  -- `drop_delivery_filter`, which is `noexcept` as well, ends the program.
  pub drop_other_type :
      (b : Mbox S I) (t : T) (s : S)
      → ot.eqb t msg_type ≡ false
      → (drop_delivery_filter msg_type o t s b ≡ terminates)
        × (unsubscribe_event_handler msg_type o t s b ≡ (b, []))
  unfolding drop_delivery_filter unsubscribe_event_handler
  drop_other_type b t s other = (rw other refl, rw other refl)
