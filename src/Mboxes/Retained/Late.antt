-- ===== src/Mboxes/Retained/Late.antt =====
-- What a sink gets from a retained_msg mbox after a history: at its subscription, and of a delivery.
use so5extra.Prelude.{
  ℕ, ◌≡◌, refl, Option, none, some, List, [], ◌∷◌, arith, Ord, if◌then◌else◌, ◌∙◌,
}
use so5extra.Std.Map
use so5extra.Std.Map.{IsSorted}
use so5extra.So5.{Mutability, ordinary, Reaction, pushed, message_rejected}
use so5extra.So5.Subscription.{SubscriptionInfo}
use so5extra.Mboxes.Retained.{
  Mbox, insert_or_modify_subscriber, subscribe_event_handler,
  modify_and_remove_subscriber_if_needed, unsubscribe_event_handler, set_delivery_filter,
  drop_delivery_filter, do_deliver_message, do_deliver_message_impl, ensure_immutable_message,
}
use so5extra.Mboxes.Retained.History.{
  Call, subscribes, unsubscribes, sets_filter, drops_filter, delivers, step, run,
}

module _ {I S F M : Type 0} (o : SubscriptionInfo I S F M) where
  -- The block of a sink that subscribes.
  abbrev pub present_or_defined : Option I → I
  present_or_defined none = o.subscription_present
  present_or_defined (some i) = o.subscription_defined i

module _ {T S I F M : Type 0} ⦃ot : Ord T⦄ ⦃os : Ord S⦄ (o : SubscriptionInfo I S F M)
    (message_mutability : M → Mutability) where
  step-id : (b : Mbox T S I M) (c : Call T S F M) → (step o message_mutability b c).id ≡ b.id
  unfolding step subscribe_event_handler unsubscribe_event_handler set_delivery_filter
      drop_delivery_filter insert_or_modify_subscriber modify_and_remove_subscriber_if_needed
      do_deliver_message do_deliver_message_impl ensure_immutable_message
  step-id b (subscribes t s) = refl
  step-id b (unsubscribes t s) = ground arith
  step-id b (drops_filter t s) = ground arith
  step-id b (sets_filter t f s) = refl
  step-id b (delivers d) = ground arith

  pub run-id :
      (b : Mbox T S I M) (cs : List (Call T S F M)) → (run o message_mutability b cs).id ≡ b.id
  unfolding run
  run-id b [] = refl
  run-id b (c ∷ cs) = run-id (step o message_mutability b c) cs ∙ step-id b c

  -- The message that a sink with the block `info` gets when it comes after the message `msg`.
  abbrev pub late : ℕ → T → S → I → Option M → List (Reaction T S M)
  late id t s info none = []
  late id t s info (some msg) =
      (if o.must_be_delivered info s msg
        then pushed (record {
          sink = s;
          mbox_id = id;
          delivery = record {
            delivery_mode = ordinary;
            msg_type = t;
            message = msg;
            redirection_deep = 0;
          };
        })
        else message_rejected s)
      ∷ []
