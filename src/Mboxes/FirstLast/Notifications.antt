-- ===== src/Mboxes/FirstLast/Notifications.antt =====
-- The counter counts the subscriptions, and the signals tell when the first comes and the last goes.
use so5extra.Prelude.{
  ℕ, suc, ◌+◌, ◌-◌, ◌%◌, ◌<◌, ◌≤◌, ◌≡◌, refl, ap, subst, ◌∙◌, true, false, some, List, [], ◌∷◌,
  arith, Ord, inl, inr, Option-cases, Bool-cases, if◌then◌else◌, length,
}
use so5extra.Std.Map
use so5extra.Std.Map.{IsSorted}
use so5extra.Std.Map.Count.{bit, count_values, count-emplace, count-modify, count-erase}
use so5extra.So5.{MboxType, MboxRef, Mutability, ok}
use so5extra.So5.Subscription.{SubscriptionInfo, IsLawful}
use so5extra.Mboxes.FirstLast.{
  Mbox, size_mod, make, insert_or_modify_subscriber, modify_and_remove_subscriber_if_needed,
  subscribe_event_handler, unsubscribe_event_handler, set_delivery_filter, drop_delivery_filter,
}
use so5extra.Mboxes.FirstLast.Calls.{
  Call, subscribes, unsubscribes, sets_filter, drops_filter, after, step, run,
}
use so5extra.Mboxes.FirstLast.Counter.{
  follow, follow-transition, count_subscriptions, is_active, Inv, is_subscribed, Goes, stays,
  first-Goes, last-Goes, make-empty,
}

module _ {S I T F M : Type 0} ⦃os : Ord S⦄ ⦃ot : Ord T⦄ (msg_type : T)
    (o : SubscriptionInfo I S F M) (law : IsLawful o) where
  open law use {has_subscription as has}

  -- What SObjectizer keeps to: a sink subscribes if it has no subscription, and unsubscribes if it
  -- has one; and the filter of another type is not dropped.
  abbrev pub Allowed : Mbox S I → Call T S F → Type 0
  Allowed b (subscribes t s) = is_subscribed has b s ≡ false
  Allowed b (unsubscribes t s) = is_subscribed has b s ≡ true
  Allowed b (sets_filter t f s) = Unit
  Allowed b (drops_filter t s) = ot.eqb t msg_type ≡ true

  insert-Goes :
      (n d : ℕ) (b : Mbox S I) (s : S) (maker : I) (changer : I → I) (post : ℕ → ℕ)
      → Inv has n b
      → post b.subscriptions_count ≡ b.subscriptions_count + d
      → d ≤ 1
      → bit (has maker) ≡ d
      → ((w : I) → Map.find s b.subscribers ≡ some w → bit (has (changer w)) ≡ bit (has w) + d)
      → Goes has (suc n) b (after b (insert_or_modify_subscriber s maker changer post b))
  unfolding insert_or_modify_subscriber count_subscriptions
  insert-Goes n d b s maker changer post v p small made changed =
      elim (Option-cases (Map.find s b.subscribers)) [
        | inl h ↦ ground (
          arith,
          h,
          stays has n b v,
          first-Goes has n d b (Map.emplace s maker b.subscribers) post v p small (
              count-emplace has s maker b.subscribers h
              ∙ ap (λ t. count_values has b.subscribers + t) made),
        )
        | inr (w, h) ↦
            rw (h, insert_or_modify_subscriber)
              (first-Goes has n d b (Map.modify s changer b.subscribers) post v p small
                (omega (arith, count-modify has s changer b.subscribers w h, changed w h)))
      ]

  empty-has : (i : I) → o.empty i ≡ true → has i ≡ false
  empty-has i h = ground (arith, law.empty_lem i)

  count-changed :
      (d : ℕ) (m : List (S × I)) (s : S) (f : I → I) (w : I)
      → Map.find s m ≡ some w
      → bit (has (f w)) + d ≡ bit (has w)
      → count_values has
            (if o.empty (f w) then Map.erase s (Map.modify s f m) else Map.modify s f m)
          + d
        ≡ count_values has m
  count-changed d m s f w h e =
      let kept = count-modify has s f m w h in
      let gone = count-erase has s (Map.modify s f m) (f w) (Map.find-modify_self s f m w h) in
      elim (Bool-cases (o.empty (f w))) [
        | inl yes_empty ↦ rw yes_empty (ground (arith, kept, gone, empty-has (f w) yes_empty, e))
        | inr not_empty ↦ rw not_empty (omega (arith, kept, e))
      ]

  remove-Goes :
      (n d : ℕ) (b : Mbox S I) (s : S) (changer : I → I) (post : ℕ → ℕ)
      → Inv has n b
      → post b.subscriptions_count + d ≡ b.subscriptions_count
      → d ≤ 1
      → ((w : I) → Map.find s b.subscribers ≡ some w → bit (has (changer w)) + d ≡ bit (has w))
      → Goes has (suc n) b (modify_and_remove_subscriber_if_needed o.empty s changer post b)
  unfolding modify_and_remove_subscriber_if_needed count_subscriptions
  remove-Goes n d b s changer post v p small changed =
      elim (Option-cases (Map.find s b.subscribers)) [
        | inl h ↦ rw (h, modify_and_remove_subscriber_if_needed) (stays has n b v)
        | inr (w, h) ↦
            rw (h, modify_and_remove_subscriber_if_needed)
              (last-Goes has n d b _ post v p small
                (count-changed d b.subscribers s changer w h (changed w h)))
      ]

  subscribed-pos :
      (b : Mbox S I) (s : S) → is_subscribed has b s ≡ true → 0 < count_subscriptions has b
  unfolding is_subscribed count_subscriptions
  subscribed-pos b s a = elim (Option-cases (Map.find s b.subscribers)) [
    | inl h ↦ ground (arith, h, a)
    | inr (w, h) ↦ ground (arith, h, a, count-erase has s b.subscribers w h)
  ]

  step-Goes :
      (n : ℕ) (b : Mbox S I) (c : Call T S F)
      → suc n < size_mod
      → Inv has n b
      → Allowed b c
      → Goes has (suc n) b (step msg_type o b c)
  unfolding step subscribe_event_handler unsubscribe_event_handler set_delivery_filter
      drop_delivery_filter is_subscribed
  step-Goes n b (subscribes t s) lt v a = elim (Bool-cases (ot.eqb t msg_type)) [
    | inl same ↦ rw same (
        insert-Goes n 1 b s o.subscription_present o.subscription_defined
          (λ count. (count + 1) % size_mod) v (omega (arith, v.small)) (omega arith)
          (ap bit law.present_lem) (λ w h. ground (arith, h, a, law.defined_lem w)))
    | inr other ↦ rw other (stays has n b v)
  ]
  step-Goes n b (unsubscribes t s) lt v a = elim (Bool-cases (ot.eqb t msg_type)) [
    | inl same ↦ rw same (
        remove-Goes n 1 b s o.subscription_dropped (λ count. (count + size_mod - 1) % size_mod) v
          (omega (arith, v.small, v.counted, subscribed-pos b s a)) (omega arith)
          (λ w h. ground (arith, h, a, law.dropped_lem w)))
    | inr other ↦ rw other (stays has n b v)
  ]
  step-Goes n b (sets_filter t f s) lt v a = elim (Bool-cases (ot.eqb t msg_type)) [
    | inl same ↦ rw same (
        insert-Goes n 0 b s (o.of_filter f) (o.set_filter f) (λ count. count) v (omega arith)
          (omega arith) (ap bit (law.of_filter_lem f))
          (λ w h. ground (arith, law.set_filter_lem f w)))
    | inr other ↦ rw other (stays has n b v)
  ]
  step-Goes n b (drops_filter t s) lt v a = rw a (
      remove-Goes n 0 b s o.drop_filter (λ count. count) v (omega arith) (omega arith)
        (λ w h. ground (arith, law.drop_filter_lem w)))

  abbrev pub AllowedRun : Mbox S I → List (Call T S F) → Type 0
  AllowedRun b [] = Unit
  AllowedRun b (c ∷ cs) = Allowed b c × AllowedRun (step msg_type o b c).0 cs

  run-follow :
      (n : ℕ) (b : Mbox S I) (cs : List (Call T S F))
      → n + length cs < size_mod
      → Inv has n b
      → AllowedRun b cs
      → (follow (is_active has b) (run msg_type o b cs).1
          ≡ some (is_active has (run msg_type o b cs).0))
        × ((run msg_type o b cs).0.subscriptions_count
            ≡ count_subscriptions has (run msg_type o b cs).0)
  unfolding run follow
  run-follow n b [] lt v a = (refl, v.counted)
  run-follow n b (c ∷ cs) lt v a =
      let (v', signals) = step-Goes n b c (omega arith) v a.0 in
      let (rest, counted) = run-follow (suc n) (step msg_type o b c).0 cs (omega arith) v' a.1 in
      (
        rw signals
            (follow-transition (is_active has b) (is_active has (step msg_type o b c).0) _ ∙ rest),
        counted,
      )

  -- From a new mbox, and through fewer than 2 ^ 64 calls that SObjectizer may make, the counter is the
  -- number of the sinks with a subscription, and a reader of the signals who starts with "nobody" is
  -- never told what he knows: `msg_first_subscriber` comes exactly when the first subscription is
  -- made, and `msg_last_subscriber` exactly when the last one goes.
  pub make-follow :
      (mutability : Mutability) (id : ℕ) (target : MboxRef) (type : MboxType) (b : Mbox S I)
      (cs : List (Call T S F))
      → make mutability id target type ≡ ok b
      → length cs < size_mod
      → AllowedRun b cs
      → (follow false (run msg_type o b cs).1 ≡ some (is_active has (run msg_type o b cs).0))
        × ((run msg_type o b cs).0.subscriptions_count
            ≡ count_subscriptions has (run msg_type o b cs).0)
  make-follow mutability id target type b cs made lt a =
      let (none_yet, zero_count) = make-empty has mutability id target type b made in
      subst
        (λ known.
          (follow known (run msg_type o b cs).1 ≡ some (is_active has (run msg_type o b cs).0))
          × ((run msg_type o b cs).0.subscriptions_count
              ≡ count_subscriptions has (run msg_type o b cs).0))
        none_yet (run-follow 0 b cs (omega arith) zero_count a)
