-- ===== src/MsgHierarchy/Demuxer.antt =====
-- dev/so_5_extra/msg_hierarchy/pub.hpp: `demuxer_t`, the sending mboxes and `consumer_t`. The controllers
-- are shared by pointers, which are positions in a list here; a null pointer is `none`.
pub mod Consumers
mod Tests
use so5extra.Prelude.{
  ℕ, ◌+◌, Bool, true, false, Option, none, some, List, [], ◌∷◌, ◌++◌, Ord, length, get_elem?, set,
}
use so5extra.So5.{
  MboxType, multi_producer_multi_consumer, multi_producer_single_consumer, Mutability,
  immutable_message, mutable_message, Error, extra, rc_not_implemented, Result, ok, throw, Delivery,
}
use so5extra.So5.Errors.{msg_hierarchy_errors}
use so5extra.MsgHierarchy.Upcaster.{TypeIndex, self_type_of}
use so5extra.MsgHierarchy.Controller.{
  Environment, Controller, new_controller, acquire_new_consumer_id, consumer_destroyed,
  acquire_receiving_mbox_for, invalid_consumer_id,
}
use so5extra.MsgHierarchy.Deliver.{MessageRef, Sent, Ended, do_deliver_message}

abbrev pub rc_mpmc_demuxer_cannot_handler_mutable_msg : Error
rc_mpmc_demuxer_cannot_handler_mutable_msg = extra (msg_hierarchy_errors + 3)

pub record World (C E B : Type 0) : Type 0 where
  pub controllers : List (Controller C B)
  pub env : E

-- `multi_consumer_sending_mbox_t` and `single_consumer_sending_mbox_t`, which differ in `type`.
pub record SendingMbox : Type 0 where
  pub controller : ℕ
  pub id : ℕ
  pub type : MboxType

pub record Demuxer : Type 0 where
  pub controller : Option ℕ
  pub sending_mbox : Option SendingMbox

pub record Consumer : Type 0 where
  pub controller : Option ℕ
  pub id : ℕ

-- The use of a null pointer has no meaning in C++.
pub data Outcome (A : Type 0) : Type 0 where
  done : A → Outcome A
  thrown : Error → Outcome A
  null_dereference : Outcome A

pub subscribe_event_handler : Result (Unit {0})
subscribe_event_handler = throw rc_not_implemented

pub set_delivery_filter : Result (Unit {0})
set_delivery_filter = throw rc_not_implemented

-- A demuxer that is moved from has no controller and no mbox.
pub empty_demuxer : Demuxer
empty_demuxer = record { controller = none; sending_mbox = none }

pub empty_consumer : Consumer
empty_consumer = record { controller = none; id = invalid_consumer_id }

-- The move constructors: the new object, and what is left of the old one.
unfoldable pub move_demuxer : Demuxer → Demuxer × Demuxer
unfolding empty_demuxer
move_demuxer o = (o, empty_demuxer)

unfoldable pub move_consumer : Consumer → Consumer × Consumer
unfolding empty_consumer
move_consumer o = (o, empty_consumer)

module _ {C E B : Type 0} where
  unfoldable pub make_demuxer : Environment E B → MboxType → World C E B → Demuxer × World C E B
  make_demuxer env mbox_type w =
      let p = length w.controllers in
      let (mbox_id, e) = env.allocate_mbox_id w.env in
      (
        record {
          controller = some p;
          sending_mbox = some (record { controller = p; id = mbox_id; type = mbox_type });
        },
        record { controllers = w.controllers ++ new_controller mbox_type ∷ []; env = e },
      )

  -- A call of a method through a pointer to a controller.
  pub with_controller :
      {A : Type 0} → Option ℕ → World C E B → (ℕ → Controller C B → Outcome A) → Outcome A
  with_controller none w f = null_dereference
  with_controller (some p) w f = elim (get_elem? w.controllers p) [
    | none ↦ null_dereference
    | some c ↦ f p c
  ]

  unfoldable pub allocate_consumer : Demuxer → World C E B → Outcome (Consumer × World C E B)
  unfolding with_controller
  allocate_consumer d w = with_controller d.controller w (λ p c.
      let (id, c') = acquire_new_consumer_id c in
      done (
        record { controller = some p; id = id },
        record w { controllers = set w.controllers p c' },
      ))

  -- The destructor of `consumer_t`.
  unfoldable pub destroy_consumer : Consumer → World C E B → World C E B
  destroy_consumer o w = elim o.controller [
    | none ↦ w
    | some p ↦ elim (get_elem? w.controllers p) [
      | none ↦ w
      | some c ↦ record w { controllers = set w.controllers p (consumer_destroyed o.id c) }
    ]
  ]

  -- `self = std::move(o)`, where `self` is another object than `o`: `tmp` takes `o`, is swapped with
  -- `self`, and is destroyed.
  unfoldable pub move_assign : Consumer → Consumer → World C E B → Consumer × Consumer × World C E B
  unfolding destroy_consumer move_consumer
  move_assign self o w = let (tmp, o') = move_consumer o in (tmp, o', destroy_consumer self w)

  module _ ⦃ord : Ord (TypeIndex C)⦄ where
    unfoldable pub receiving_mbox :
        Environment E B → Mutability → C → Consumer → World C E B → Outcome (B × World C E B)
    unfolding with_controller
    receiving_mbox env mutability c o w = with_controller o.controller w (λ p k.
        let acquired = acquire_receiving_mbox_for env o.id (self_type_of mutability c) k w.env in
        let acquire =
          done (
            acquired.0,
            record { controllers = set w.controllers p acquired.1; env = acquired.2 },
          ) in
        elim mutability [
          | immutable_message ↦ acquire
          | mutable_message ↦ elim k.mbox_type [
            | multi_producer_multi_consumer ↦ thrown rc_mpmc_demuxer_cannot_handler_mutable_msg
            | multi_producer_single_consumer ↦ acquire
          ]
        ])

    -- A message that is sent to the mbox of the demuxer.
    unfoldable pub sending_mbox_do_deliver_message :
        {P : Type 0}
        → (MessageRef C P → Mutability)
        → (Sent C B P → Result (Unit {0}))
        → Delivery (TypeIndex C) (MessageRef C P)
        → SendingMbox
        → World C E B
        → Outcome (List (Sent C B P) × Ended (Unit {0}))
    unfolding with_controller
    sending_mbox_do_deliver_message message_mutability receive d b w =
        with_controller (some b.controller) w
          (λ p c. done (do_deliver_message message_mutability receive d c))
