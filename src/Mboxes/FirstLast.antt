-- ===== src/Mboxes/FirstLast.antt =====
-- dev/so_5_extra/mboxes/first_last_subscriber_notification.hpp: `details::actual_mbox_t`. The lock
-- makes each method one step. A method returns the new state and the signals that it sends to the
-- notification mbox. `msg_type` is `typeid(Msg_Type)`; the sinks `S` are ordered by
-- `special_sink_ptr_compare`; the blocks `I` of the subscribers are SObjectizer's. A `push_event`
-- returns.
pub mod Calls
pub mod Counter
pub mod Notifications
pub mod SingleConsumer
mod Tests
use so5extra.Prelude.{
  ℕ, ◌+◌, ◌-◌, ◌%◌, ◌^◌, Bool, not, ◌&&◌, none, some, List, [], ◌∷◌, Ord, ltb, ◌==◌, if◌then◌else◌,
}
use so5extra.Std.Map
use so5extra.So5.{
  MboxType, multi_producer_multi_consumer, multi_producer_single_consumer, MboxRef, Error, extra,
  rc_mutable_msg_cannot_be_delivered_via_mpmc_mbox, Mutability, immutable_message, mutable_message,
  Result, ok, throw, ◌>>◌, Noexcept, noexcept_call, Delivery, Reaction, pushed, message_rejected,
}
use so5extra.So5.Errors.{mboxes_first_last_subscriber_notification_errors}
use so5extra.So5.Subscription.{SubscriptionInfo}

abbrev pub rc_different_message_type : Error
rc_different_message_type = extra mboxes_first_last_subscriber_notification_errors

abbrev pub rc_subscriber_already_exists_for_mpsc_mbox : Error
rc_subscriber_already_exists_for_mpsc_mbox =
    extra (mboxes_first_last_subscriber_notification_errors + 1)

pub data Signal : Type 0 where
  msg_first_subscriber msg_last_subscriber : Signal

-- The counter of the subscriptions is a `std::size_t` of 64 bits.
abbrev pub size_mod : ℕ
size_mod = 2 ^ 64

pub record Mbox (S I : Type 0) : Type 0 where
  pub id : ℕ
  pub notification_mbox : MboxRef
  pub mbox_type : MboxType
  pub subscribers : List (S × I)
  pub subscriptions_count : ℕ

-- The constructor; `is_mutable_message< Msg_Type >` is an argument.
unfoldable pub make : {S I : Type 0} → Mutability → ℕ → MboxRef → MboxType → Result (Mbox S I)
make mutability id notification_mbox mbox_type =
    let made = ok (record {
      id = id;
      notification_mbox = notification_mbox;
      mbox_type = mbox_type;
      subscribers = [];
      subscriptions_count = 0;
    }) in
    elim mutability [
      | immutable_message ↦ made
      | mutable_message ↦ elim mbox_type [
        | multi_producer_multi_consumer ↦ throw rc_mutable_msg_cannot_be_delivered_via_mpmc_mbox
        | multi_producer_single_consumer ↦ made
      ]
    ]

pub ensure_new_item_can_be_added_to_subscribers : {S I : Type 0} → Mbox S I → Result (Unit {0})
ensure_new_item_can_be_added_to_subscribers b = elim b.mbox_type [
  | multi_producer_multi_consumer ↦ ok tt
  | multi_producer_single_consumer ↦ elim b.subscribers [
    | [] ↦ ok tt
    | _ ∷ _ ↦ throw rc_subscriber_already_exists_for_mpsc_mbox
  ]
]

module _ {T : Type 0} ⦃ot : Ord T⦄ (msg_type : T) where
  pub ensure_expected_msg_type : T → Result (Unit {0})
  ensure_expected_msg_type t =
      if not (ot.eqb t msg_type) then throw rc_different_message_type else ok tt

module _ {S I : Type 0} ⦃os : Ord S⦄ where
  -- `post_action` acts on the counter alone.
  pub notify_first : (ℕ → ℕ) → Mbox S I → Mbox S I × List Signal
  notify_first post_action b =
      let old_subscribers_count = b.subscriptions_count in
      let count = post_action b.subscriptions_count in
      (
        record b { subscriptions_count = count },
        if ltb old_subscribers_count count && 1 == count then msg_first_subscriber ∷ [] else [],
      )

  pub notify_last : (ℕ → ℕ) → Mbox S I → Mbox S I × List Signal
  notify_last post_action b =
      let old_subscribers_count = b.subscriptions_count in
      let count = post_action b.subscriptions_count in
      (
        record b { subscriptions_count = count },
        if ltb count old_subscribers_count && 0 == count then msg_last_subscriber ∷ [] else [],
      )

  pub insert_or_modify_subscriber :
      S → I → (I → I) → (ℕ → ℕ) → Mbox S I → Result (Mbox S I × List Signal)
  unfolding notify_first ensure_new_item_can_be_added_to_subscribers
  insert_or_modify_subscriber subscriber maker changer post_action b =
      elim (Map.find subscriber b.subscribers) [
        | none ↦ do
          ensure_new_item_can_be_added_to_subscribers b
          ok (
              notify_first post_action
                (record b { subscribers = Map.emplace subscriber maker b.subscribers }))
        | some _ ↦ ok (
            notify_first post_action
              (record b { subscribers = Map.modify subscriber changer b.subscribers }))
      ]

  -- `is_empty` is `empty` of the block.
  pub modify_and_remove_subscriber_if_needed :
      (I → Bool) → S → (I → I) → (ℕ → ℕ) → Mbox S I → Mbox S I × List Signal
  unfolding notify_last
  modify_and_remove_subscriber_if_needed is_empty subscriber changer post_action b =
      elim (Map.find subscriber b.subscribers) [
        | none ↦ (b, [])
        | some info ↦
            let changed = Map.modify subscriber changer b.subscribers in
            notify_last post_action (record b {
              subscribers =
                  if is_empty (changer info) then Map.erase subscriber changed else changed;
            })
      ]

  module _ {T F M : Type 0} ⦃ot : Ord T⦄ (msg_type : T) (o : SubscriptionInfo I S F M) where
    pub subscribe_event_handler : T → S → Mbox S I → Result (Mbox S I × List Signal)
    unfolding ensure_expected_msg_type insert_or_modify_subscriber
    subscribe_event_handler t subscriber b = do
      ensure_expected_msg_type msg_type t
      insert_or_modify_subscriber subscriber o.subscription_present o.subscription_defined
          (λ count. (count + 1) % size_mod) b

    pub unsubscribe_event_handler : T → S → Mbox S I → Mbox S I × List Signal
    unfolding modify_and_remove_subscriber_if_needed
    unsubscribe_event_handler t subscriber b =
        if ot.eqb t msg_type
        then modify_and_remove_subscriber_if_needed o.empty subscriber o.subscription_dropped
            (λ count. (count + size_mod - 1) % size_mod) b
        else (b, [])

    pub set_delivery_filter : T → F → S → Mbox S I → Result (Mbox S I × List Signal)
    unfolding ensure_expected_msg_type insert_or_modify_subscriber
    set_delivery_filter t filter subscriber b = do
      ensure_expected_msg_type msg_type t
      insert_or_modify_subscriber subscriber (o.of_filter filter) (o.set_filter filter)
          (λ count. count) b

    -- The method is `noexcept`, and its check of the type throws.
    pub drop_delivery_filter : T → S → Mbox S I → Noexcept (Mbox S I × List Signal)
    unfolding ensure_expected_msg_type modify_and_remove_subscriber_if_needed
    drop_delivery_filter t subscriber b = noexcept_call (do
      ensure_expected_msg_type msg_type t
      ok (
          modify_and_remove_subscriber_if_needed o.empty subscriber o.drop_filter (λ count. count)
            b))

    pub do_deliver_message_to_subscriber : ℕ → Delivery T M → S → I → Reaction T S M
    do_deliver_message_to_subscriber id d subscriber subscriber_info =
        if o.must_be_delivered subscriber_info subscriber d.message
        then pushed (record { sink = subscriber; mbox_id = id; delivery = d })
        else message_rejected subscriber

    pub deliver_to_all : ℕ → Delivery T M → List (S × I) → List (Reaction T S M)
    unfolding do_deliver_message_to_subscriber
    deliver_to_all id d [] = []
    deliver_to_all id d ((subscriber, info) ∷ rest) =
        do_deliver_message_to_subscriber id d subscriber info ∷ deliver_to_all id d rest

    -- No reaction at all stands for `tracer.no_subscribers()`. The state stays.
    pub do_deliver_message : Delivery T M → Mbox S I → Result (List (Reaction T S M))
    unfolding ensure_expected_msg_type deliver_to_all
    do_deliver_message d b = do
      ensure_expected_msg_type msg_type d.msg_type
      ok (deliver_to_all b.id d b.subscribers)
