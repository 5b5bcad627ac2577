-- ===== src/Mboxes/Broadcast.antt =====
-- dev/so_5_extra/mboxes/broadcast.hpp: a mbox with a fixed list of destinations. `D` stands for the
-- destinations and `O` for the state that their `do_deliver_message` works on.
use so5extra.Prelude.{ℕ, List, [], ◌∷◌}
use so5extra.So5.{
  MboxType, multi_producer_multi_consumer, Mutability, immutable_message, mutable_message,
  rc_not_implemented, rc_mutable_msg_cannot_be_delivered_via_mpmc_mbox, Result, ok, throw, Delivery,
}

pub record Mbox (D : Type 0) : Type 0 where
  pub id : ℕ
  pub destinations : List D

module _ {D : Type 0} where
  -- Each form of `make` copies or moves the destinations, in their order.
  unfoldable pub make : ℕ → List D → Mbox D
  make id destinations = record { id = id; destinations = destinations }

  pub type : Mbox D → MboxType
  type b = multi_producer_multi_consumer

  pub subscribe_event_handler : Mbox D → Result (Unit {0})
  subscribe_event_handler b = throw rc_not_implemented

  pub unsubscribe_event_handler : Mbox D → Mbox D
  unsubscribe_event_handler b = b

  pub set_delivery_filter : Mbox D → Result (Unit {0})
  set_delivery_filter b = throw rc_not_implemented

  pub drop_delivery_filter : Mbox D → Mbox D
  drop_delivery_filter b = b

  module _ {T M O : Type 0} (deliver : D → Delivery T M → O → O × Result (Unit {0})) where
    -- An exception of a destination leaves the loop.
    unfoldable pub deliver_to_each : List D → Delivery T M → O → O × Result (Unit {0})
    deliver_to_each [] d o = (o, ok tt)
    deliver_to_each (m ∷ destinations) d o =
        let (o', done) = deliver m d o in
        elim done [ throw e ↦ (o', throw e) | ok _ ↦ deliver_to_each destinations d o' ]

    unfoldable pub do_deliver_message :
        (M → Mutability) → Delivery T M → Mbox D → O → O × Result (Unit {0})
    unfolding deliver_to_each
    do_deliver_message message_mutability d b o = elim (message_mutability d.message) [
      | mutable_message ↦ (o, throw rc_mutable_msg_cannot_be_delivered_via_mpmc_mbox)
      | immutable_message ↦ deliver_to_each b.destinations d o
    ]
