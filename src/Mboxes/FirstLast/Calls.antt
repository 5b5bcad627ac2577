-- ===== src/Mboxes/FirstLast/Calls.antt =====
-- A call of a first_last_subscriber_notification mbox as a value, and runs of calls.
use so5extra.Prelude.{List, [], ◌∷◌, ◌++◌, Ord}
use so5extra.So5.{Result, ok, throw, Noexcept, returns, terminates}
use so5extra.So5.Subscription.{SubscriptionInfo}
use so5extra.Mboxes.FirstLast.{
  Mbox, Signal, subscribe_event_handler, unsubscribe_event_handler, set_delivery_filter,
  drop_delivery_filter,
}

pub data Call (T S F : Type 0) : Type 0 where
  subscribes unsubscribes drops_filter : T → S → Call T S F
  sets_filter : T → F → S → Call T S F

module _ {S I : Type 0} where
  -- A caller that gets an exception sees no change; a run that ends by `std::terminate` has no next
  -- state, and this step is not allowed in a run.
  abbrev pub after : Mbox S I → Result (Mbox S I × List Signal) → Mbox S I × List Signal
  after b (ok r) = r
  after b (throw e) = (b, [])

  abbrev pub survives : Mbox S I → Noexcept (Mbox S I × List Signal) → Mbox S I × List Signal
  survives b (returns r) = r
  survives b terminates = (b, [])

module _ {S I T F M : Type 0} ⦃os : Ord S⦄ ⦃ot : Ord T⦄ (msg_type : T)
    (o : SubscriptionInfo I S F M) where
  unfoldable pub step : Mbox S I → Call T S F → Mbox S I × List Signal
  step b (subscribes t s) = after b (subscribe_event_handler msg_type o t s b)
  step b (unsubscribes t s) = unsubscribe_event_handler msg_type o t s b
  step b (sets_filter t f s) = after b (set_delivery_filter msg_type o t f s b)
  step b (drops_filter t s) = survives b (drop_delivery_filter msg_type o t s b)

  unfoldable pub run : Mbox S I → List (Call T S F) → Mbox S I × List Signal
  unfolding step
  run b [] = (b, [])
  run b (c ∷ cs) =
      let (b', signals) = step b c in let (b'', later) = run b' cs in (b'', signals ++ later)
