-- ===== src/Mboxes/Retained.antt =====
-- dev/so_5_extra/mboxes/retained_msg.hpp: `details::mbox_template_t`, a multi-consumer mbox that keeps
-- the last message of each type and gives it to a sink that comes later. The lock makes each method
-- one step. The message types `T` are ordered as `std::type_index`, the sinks `S` by
-- `special_sink_ptr_compare`; the blocks `I` of the subscribers and `message_mutability` are
-- SObjectizer's. A `push_event` returns.
pub mod History
pub mod Cells
pub mod Refinement
pub mod Late
pub mod Deliveries
mod Tests
use so5extra.Prelude.{ℕ, Bool, none, some, Option, List, [], ◌∷◌, ◌++◌, Ord, if◌then◌else◌}
use so5extra.Std.Map
use so5extra.So5.{
  MboxType, multi_producer_multi_consumer, Mutability, immutable_message, mutable_message, Result,
  ok, throw, ◌>>◌, ordinary, Delivery, Reaction, pushed, message_rejected,
  rc_mutable_msg_cannot_be_delivered_via_mpmc_mbox,
}
use so5extra.So5.Subscription.{SubscriptionInfo}

-- `messages_table_item_t`: the subscribers of a message type, and its message, if there was one.
pub record MessagesTableItem (S I M : Type 0) : Type 0 where
  pub subscribers : List (S × I)
  pub retained_msg : Option M

pub record Mbox (T S I M : Type 0) : Type 0 where
  pub id : ℕ
  pub messages_table : List (T × MessagesTableItem S I M)

unfoldable pub new_mbox : {T S I M : Type 0} → ℕ → Mbox T S I M
new_mbox id = record { id = id; messages_table = [] }

pub type : {T S I M : Type 0} → Mbox T S I M → MboxType
type b = multi_producer_multi_consumer

abbrev pub blank_item : {S I M : Type 0} → MessagesTableItem S I M
blank_item = record { subscribers = []; retained_msg = none }

module _ {T S I M : Type 0} ⦃ot : Ord T⦄ where
  -- `m_messages_table[ msg_type ]`, which makes an item if there is none, as a value and as the place
  -- that a method changes.
  pub table_item : T → List (T × MessagesTableItem S I M) → MessagesTableItem S I M
  table_item msg_type table = elim (Map.find msg_type table) [
    | none ↦ blank_item
    | some item ↦ item
  ]

  pub set_table_item :
      T
      → MessagesTableItem S I M
      → List (T × MessagesTableItem S I M)
      → List (T × MessagesTableItem S I M)
  set_table_item msg_type item table = elim (Map.find msg_type table) [
    | none ↦ Map.emplace msg_type item table
    | some _ ↦ Map.modify msg_type (λ _. item) table
  ]

pub ensure_immutable_message : {M : Type 0} → (M → Mutability) → M → Result (Unit {0})
ensure_immutable_message message_mutability what = elim (message_mutability what) [
  | immutable_message ↦ ok tt
  | mutable_message ↦ throw rc_mutable_msg_cannot_be_delivered_via_mpmc_mbox
]

module _ {S I : Type 0} ⦃os : Ord S⦄ where
  -- The search in the subscribers, with what it leaves and the block that it stops at.
  pub insert_or_modify : S → I → (I → I) → List (S × I) → List (S × I) × I
  insert_or_modify subscriber maker changer subscribers = elim (Map.find subscriber subscribers) [
    | none ↦ (Map.emplace subscriber maker subscribers, maker)
    | some info ↦ (Map.modify subscriber changer subscribers, changer info)
  ]

module _ {T S I F M : Type 0} ⦃ot : Ord T⦄ ⦃os : Ord S⦄ (o : SubscriptionInfo I S F M) where
  unfoldable pub do_deliver_message_to_subscriber : ℕ → Delivery T M → S → I → Reaction T S M
  do_deliver_message_to_subscriber id d subscriber subscriber_info =
      if o.must_be_delivered subscriber_info subscriber d.message
      then pushed (record { sink = subscriber; mbox_id = id; delivery = d })
      else message_rejected subscriber

  -- No reaction if nothing is retained.
  unfoldable pub try_deliver_retained_message_to : ℕ → T → Option M → S → I → List (Reaction T S M)
  unfolding do_deliver_message_to_subscriber
  try_deliver_retained_message_to id msg_type none subscriber info = []
  try_deliver_retained_message_to id msg_type (some msg) subscriber info =
      do_deliver_message_to_subscriber id
        (record {
          delivery_mode = ordinary;
          msg_type = msg_type;
          message = msg;
          redirection_deep = 0;
        })
        subscriber info
      ∷ []

  unfoldable pub insert_or_modify_subscriber :
      T → S → I → (I → I) → Mbox T S I M → Mbox T S I M × List (Reaction T S M)
  unfolding table_item set_table_item insert_or_modify try_deliver_retained_message_to
  insert_or_modify_subscriber msg_type subscriber maker changer b =
      let item = table_item msg_type b.messages_table in
      let (subscribers, info) = insert_or_modify subscriber maker changer item.subscribers in
      (
        record b {
          messages_table =
              set_table_item msg_type (record item { subscribers = subscribers }) b.messages_table;
        },
        try_deliver_retained_message_to b.id msg_type item.retained_msg subscriber info,
      )

  unfoldable pub modify_and_remove_subscriber_if_needed :
      T → S → (I → I) → Mbox T S I M → Mbox T S I M
  unfolding set_table_item
  modify_and_remove_subscriber_if_needed msg_type subscriber changer b =
      elim (Map.find msg_type b.messages_table) [
        | none ↦ b
        | some item ↦ elim (Map.find subscriber item.subscribers) [
          | none ↦ b
          | some info ↦
              let changed = Map.modify subscriber changer item.subscribers in
              let subscribers =
                if o.empty (changer info) then Map.erase subscriber changed else changed in
              record b {
                messages_table =
                    Map.modify msg_type (λ _. record item { subscribers = subscribers })
                      b.messages_table;
              }
        ]
      ]

  unfoldable pub subscribe_event_handler :
      T → S → Mbox T S I M → Mbox T S I M × List (Reaction T S M)
  unfolding insert_or_modify_subscriber
  subscribe_event_handler msg_type subscriber b =
      insert_or_modify_subscriber msg_type subscriber o.subscription_present o.subscription_defined
        b

  unfoldable pub unsubscribe_event_handler : T → S → Mbox T S I M → Mbox T S I M
  unfolding modify_and_remove_subscriber_if_needed
  unsubscribe_event_handler msg_type subscriber b =
      modify_and_remove_subscriber_if_needed msg_type subscriber o.subscription_dropped b

  unfoldable pub set_delivery_filter :
      T → F → S → Mbox T S I M → Mbox T S I M × List (Reaction T S M)
  unfolding insert_or_modify_subscriber
  set_delivery_filter msg_type filter subscriber b =
      insert_or_modify_subscriber msg_type subscriber (o.of_filter filter) (o.set_filter filter) b

  unfoldable pub drop_delivery_filter : T → S → Mbox T S I M → Mbox T S I M
  unfolding modify_and_remove_subscriber_if_needed
  drop_delivery_filter msg_type subscriber b =
      modify_and_remove_subscriber_if_needed msg_type subscriber o.drop_filter b

  unfoldable pub deliver_to_all : ℕ → Delivery T M → List (S × I) → List (Reaction T S M)
  unfolding do_deliver_message_to_subscriber
  deliver_to_all id d [] = []
  deliver_to_all id d ((subscriber, info) ∷ rest) =
      do_deliver_message_to_subscriber id d subscriber info ∷ deliver_to_all id d rest

  -- No reaction at all stands for `tracer.no_subscribers()`.
  unfoldable pub do_deliver_message_impl :
      Delivery T M → Mbox T S I M → Mbox T S I M × List (Reaction T S M)
  unfolding table_item set_table_item deliver_to_all
  do_deliver_message_impl d b =
      let item = record (table_item d.msg_type b.messages_table) {
        retained_msg = some d.message;
      } in
      (
        record b { messages_table = set_table_item d.msg_type item b.messages_table },
        deliver_to_all b.id d item.subscribers,
      )

  unfoldable pub do_deliver_message :
      (M → Mutability) → Delivery T M → Mbox T S I M → Result (Mbox T S I M × List (Reaction T S M))
  unfolding ensure_immutable_message do_deliver_message_impl
  do_deliver_message message_mutability d b = do
    ensure_immutable_message message_mutability d.message
    ok (do_deliver_message_impl d b)
