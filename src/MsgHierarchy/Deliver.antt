-- ===== src/MsgHierarchy/Deliver.antt =====
-- dev/so_5_extra/msg_hierarchy/pub.hpp: how the controllers of a demuxer deliver a message. What a
-- receiving mbox does with a call of its `do_deliver_message`, to return or to throw, is a parameter,
-- `receive`. The `do ... while` loops have fuel.
pub mod Climb
pub mod Receivers
pub mod ById
pub mod History
mod Tests
use so5extra.Prelude.{
  ℕ, suc, zero, ◌+◌, ◌%◌, ◌^◌, Option, none, some, List, [], ◌∷◌, ◌++◌, Ord, nat_ord, Bool, true,
  false, length,
}
use so5extra.Std.Map
use so5extra.So5.{
  MboxType, multi_producer_multi_consumer, multi_producer_single_consumer, DeliveryMode, Mutability,
  immutable_message, mutable_message, Error, extra,
  rc_mutable_msg_cannot_be_delivered_via_mpmc_mbox, Result, ok, throw, Delivery,
}
use so5extra.So5.Errors.{msg_hierarchy_errors}
use so5extra.MsgHierarchy.Upcaster.{
  TypeIndex, UpcasterFactory, MessageUpcaster, make_upcaster, has_parent_factory, parent_upcaster,
}
use so5extra.MsgHierarchy.Upcaster.Lineage.{lineage}
use so5extra.MsgHierarchy.Controller.{Controller}

abbrev pub rc_signal_cannot_be_delivered : Error
rc_signal_cannot_be_delivered = extra (msg_hierarchy_errors + 1)

abbrev pub rc_message_is_not_derived_from_root : Error
rc_message_is_not_derived_from_root = extra (msg_hierarchy_errors + 2)

abbrev pub rc_more_than_one_subscriber_for_mutable_msg : Error
rc_more_than_one_subscriber_for_mutable_msg = extra (msg_hierarchy_errors + 4)

-- A message that is not a signal. `root` is the pointer that `dynamic_cast` gives.
pub record Message (C P : Type 0) : Type 0 where
  pub root : Option (UpcasterFactory C)
  pub payload : P

-- A `message_ref_t` is null for a signal.
abbrev pub MessageRef : Type 0 → Type 0 → Type 0
MessageRef C P = Option (Message C P)

-- How a piece of code ends: it has a value, it throws, or its loop needs more fuel.
pub data Ended (A : Type 0) : Type 0 where
  returned : A → Ended A
  thrown : Error → Ended A
  out_of_fuel : Ended A

pub record SingleDestInfo (C B : Type 0) : Type 0 where
  pub dest_mbox : B
  pub subscription_type : TypeIndex C

-- A call of `do_deliver_message` of a receiving mbox.
pub record Sent (C B P : Type 0) : Type 0 where
  pub dest : B
  pub delivery : Delivery (TypeIndex C) (MessageRef C P)

module _ {C P : Type 0} where
  -- The checks that both controllers begin with.
  pub ensure_root : MessageRef C P → Result (UpcasterFactory C)
  ensure_root none = throw rc_signal_cannot_be_delivered
  ensure_root (some raw_msg) = elim raw_msg.root [
    | none ↦ throw rc_message_is_not_derived_from_root
    | some factory ↦ ok factory
  ]

unfoldable pub send_to :
    {C B P : Type 0} → Delivery (TypeIndex C) (MessageRef C P) → SingleDestInfo C B → Sent C B P
send_to d dest = record {
  dest = dest.dest_mbox;
  delivery = record d { msg_type = dest.subscription_type };
}

module _ {C B : Type 0} ⦃o : Ord (TypeIndex C)⦄ where
  -- The loop over the chain of upcasters for one consumer.
  pub climb :
      ℕ
      → Mutability
      → List (TypeIndex C × B)
      → MessageUpcaster C
      → Ended (Option (SingleDestInfo C B))
  climb zero mutability consumer_map upcaster = out_of_fuel
  climb (suc fuel) mutability consumer_map upcaster =
      elim (Map.find upcaster.self_type consumer_map) [
        | some mbox ↦
            returned (some (record { dest_mbox = mbox; subscription_type = upcaster.self_type }))
        | none ↦ elim (has_parent_factory upcaster) [
          | false ↦ returned none
          | true ↦ elim (parent_upcaster mutability upcaster) [
            | ok parent ↦ climb fuel mutability consumer_map parent
            | throw e ↦ thrown e
          ]
        ]
      ]

  -- The search for one consumer, with fuel for each upcaster of the chain.
  unfoldable pub find_receiver :
      Mutability → UpcasterFactory C → List (TypeIndex C × B) → Ended (Option (SingleDestInfo C B))
  unfolding climb
  find_receiver mutability factory consumer_map =
      climb (length (lineage factory)) mutability consumer_map (make_upcaster factory mutability)

  module _ {P : Type 0} (receive : Sent C B P → Result (Unit {0})) where
    -- The calls made, the older first, and how the loop over the consumers ends.
    unfoldable pub do_delivery_procedure_for_immutable_message :
        Mutability
        → UpcasterFactory C
        → Delivery (TypeIndex C) (MessageRef C P)
        → List (ℕ × List (TypeIndex C × B))
        → List (Sent C B P)
        → List (Sent C B P) × Ended (Unit {0})
    do_delivery_procedure_for_immutable_message mutability factory d [] sent = (sent, returned tt)
    do_delivery_procedure_for_immutable_message mutability factory d ((id, consumer_map) ∷ rest)
          sent =
        elim (find_receiver mutability factory consumer_map) [
          | returned (some dest) ↦
              let sent' = sent ++ send_to d dest ∷ [] in
              elim (receive (send_to d dest)) [
                | throw e ↦ (sent', thrown e)
                | ok _ ↦ do_delivery_procedure_for_immutable_message mutability factory d rest sent'
              ]
          | returned none ↦
              do_delivery_procedure_for_immutable_message mutability factory d rest sent
          | thrown e ↦ (sent, thrown e)
          | out_of_fuel ↦ (sent, out_of_fuel)
        ]

  -- The loop of `detect_receiver_for_mutable_msg_or_throw`, with its `result`.
  unfoldable pub detect_receiver :
      UpcasterFactory C
      → List (ℕ × List (TypeIndex C × B))
      → Option (SingleDestInfo C B)
      → Ended (Option (SingleDestInfo C B))
  detect_receiver factory [] result = returned result
  detect_receiver factory ((id, consumer_map) ∷ rest) result =
      elim (find_receiver mutable_message factory consumer_map) [
        | returned none ↦ detect_receiver factory rest result
        | returned (some dest) ↦ elim result [
          | none ↦ detect_receiver factory rest (some dest)
          | some _ ↦ thrown rc_more_than_one_subscriber_for_mutable_msg
        ]
        | thrown e ↦ thrown e
        | out_of_fuel ↦ out_of_fuel
      ]

  unfoldable pub detect_receiver_for_mutable_msg_or_throw :
      UpcasterFactory C → Controller C B → Ended (Option (SingleDestInfo C B))
  detect_receiver_for_mutable_msg_or_throw factory c =
      detect_receiver factory c.consumers_with_mboxes none

  pub deliver_mutable :
      {P : Type 0}
      → (Sent C B P → Result (Unit {0}))
      → Delivery (TypeIndex C) (MessageRef C P)
      → Ended (Option (SingleDestInfo C B))
      → List (Sent C B P) × Ended (Unit {0})
  deliver_mutable receive d (returned none) = ([], returned tt)
  deliver_mutable receive d (returned (some dest)) =
      let sent = send_to d dest ∷ [] in
      elim (receive (send_to d dest)) [ ok _ ↦ (sent, returned tt) | throw e ↦ (sent, thrown e) ]
  deliver_mutable receive d (thrown e) = ([], thrown e)
  deliver_mutable receive d out_of_fuel = ([], out_of_fuel)

  -- `message_mutability` is SObjectizer's.
  module _ {P : Type 0} (message_mutability : MessageRef C P → Mutability)
      (receive : Sent C B P → Result (Unit {0})) where
    pub deliver_immutable :
        Delivery (TypeIndex C) (MessageRef C P)
        → Controller C B
        → UpcasterFactory C
        → List (Sent C B P) × Ended (Unit {0})
    deliver_immutable d c factory =
        do_delivery_procedure_for_immutable_message receive (message_mutability d.message) factory d
          c.consumers_with_mboxes []

    unfoldable pub multi_do_deliver_message :
        Delivery (TypeIndex C) (MessageRef C P)
        → Controller C B
        → List (Sent C B P) × Ended (Unit {0})
    unfolding ensure_root deliver_immutable
    multi_do_deliver_message d c = elim (message_mutability d.message) [
      | mutable_message ↦ ([], thrown rc_mutable_msg_cannot_be_delivered_via_mpmc_mbox)
      | immutable_message ↦ elim (ensure_root d.message) [
        | throw e ↦ ([], thrown e)
        | ok factory ↦ deliver_immutable d c factory
      ]
    ]

    unfoldable pub single_do_deliver_message :
        Delivery (TypeIndex C) (MessageRef C P)
        → Controller C B
        → List (Sent C B P) × Ended (Unit {0})
    unfolding ensure_root deliver_immutable deliver_mutable
    single_do_deliver_message d c = elim (ensure_root d.message) [
      | throw e ↦ ([], thrown e)
      | ok factory ↦ elim (message_mutability d.message) [
        | mutable_message ↦
            deliver_mutable receive d (detect_receiver_for_mutable_msg_or_throw factory c)
        | immutable_message ↦ deliver_immutable d c factory
      ]
    ]

    -- The virtual call, by the class of the controller.
    unfoldable pub do_deliver_message :
        Delivery (TypeIndex C) (MessageRef C P)
        → Controller C B
        → List (Sent C B P) × Ended (Unit {0})
    do_deliver_message d c = elim c.mbox_type [
      | multi_producer_multi_consumer ↦ multi_do_deliver_message d c
      | multi_producer_single_consumer ↦ single_do_deliver_message d c
    ]
