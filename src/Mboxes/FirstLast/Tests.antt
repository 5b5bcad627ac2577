-- ===== src/Mboxes/FirstLast/Tests.antt =====
-- The theorems on the first_last_subscriber_notification mbox at concrete inputs.
use so5extra.Prelude.{ℕ, ◌≡◌, refl, false, some, List, [], ◌∷◌, arith, nat_ord, ltb}
use so5extra.Std.Map
use so5extra.So5.{
  MboxRef, multi_producer_multi_consumer, multi_producer_single_consumer, immutable_message,
}
use so5extra.So5.Subscription.{SubscriptionInfo, Block, block_info, block_info-IsLawful}
use so5extra.Mboxes.FirstLast.{
  make, subscribe_event_handler, set_delivery_filter, Mbox, msg_first_subscriber,
  msg_last_subscriber, unsubscribe_event_handler, drop_delivery_filter,
}
use so5extra.Mboxes.FirstLast.Calls.{Call, subscribes, unsubscribes, sets_filter, drops_filter, run}
use so5extra.Mboxes.FirstLast.Counter.{is_subscribed, follow, count_subscriptions, is_active}
use so5extra.Mboxes.FirstLast.Notifications.{make-follow}

abbrev info : SubscriptionInfo (Block ℕ) ℕ ℕ ℕ
info = block_info ltb

abbrev watcher : MboxRef
watcher = record { id = 2; type = multi_producer_multi_consumer }

abbrev fresh : Mbox ℕ (Block ℕ)
fresh = record {
  id = 9;
  notification_mbox = watcher;
  mbox_type = multi_producer_multi_consumer;
  subscribers = [];
  subscriptions_count = 0;
}

-- Two sinks come and go, one with a filter.
abbrev visits : List (Call ℕ ℕ ℕ)
visits =
    sets_filter 7 3 1
    ∷ subscribes 7 1
    ∷ subscribes 7 2
    ∷ subscribes 8 3
    ∷ unsubscribes 7 1
    ∷ drops_filter 7 1
    ∷ unsubscribes 7 2
    ∷ []

visits_signals : (run 7 info fresh visits).1 ≡ msg_first_subscriber ∷ msg_last_subscriber ∷ []
unfolding run subscribe_event_handler unsubscribe_event_handler set_delivery_filter
    drop_delivery_filter Map.find Map.emplace Map.modify Map.erase
visits_signals = refl

make-follow_example :
    (follow false (run 7 info fresh visits).1
      ≡ some (is_active (λ i. i.subscribed) (run 7 info fresh visits).0))
    × ((run 7 info fresh visits).0.subscriptions_count
        ≡ count_subscriptions (λ i. i.subscribed) (run 7 info fresh visits).0)
unfolding make run subscribe_event_handler unsubscribe_event_handler set_delivery_filter
    drop_delivery_filter Map.find Map.emplace Map.modify Map.erase is_subscribed block_info-IsLawful
make-follow_example =
    make-follow 7 info (block_info-IsLawful ltb) immutable_message 9 watcher
      multi_producer_multi_consumer fresh visits refl (omega arith)
      (tt, (refl, (refl, (refl, (refl, (refl, (refl, tt)))))))

abbrev single : Mbox ℕ (Block ℕ)
single = record fresh { mbox_type = multi_producer_single_consumer }
