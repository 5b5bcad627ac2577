-- ===== src/MsgHierarchy/Deliver/Tests.antt =====
-- The theorems on the delivery of messages at concrete inputs: the classes 2, 1 and 0 are a hierarchy.
use so5extra.Prelude.{ℕ, ◌+◌, ◌≡◌, refl, some, List, [], ◌∷◌, ◌++◌, map, ◌==◌, if◌then◌else◌}
use so5extra.Std.Map
use so5extra.So5.{
  multi_producer_multi_consumer, multi_producer_single_consumer, Mutability, immutable_message,
  mutable_message, Delivery, ordinary, Result, ok, throw, rc_not_implemented,
}
use so5extra.MsgHierarchy.Upcaster.{
  TypeIndex, typeid, typeid_mutable_msg, UpcasterFactory, so_make_upcaster_root, so_make_upcaster,
  make_upcaster, has_parent_factory, parent_upcaster,
}
use so5extra.MsgHierarchy.Upcaster.Order.{type_ord}
use so5extra.MsgHierarchy.Upcaster.Lineage.{lineage}
use so5extra.MsgHierarchy.Controller.{
  Environment, Controller, new_controller, acquire_receiving_mbox_for, consumer_destroyed,
  consumer_map_of,
}
use so5extra.MsgHierarchy.Controller.Requests.{Request, wants, leaves, run, mbox_of}
use so5extra.MsgHierarchy.Deliver.{
  Message, MessageRef, Sent, Ended, returned, thrown, send_to, find_receiver, do_deliver_message,
  multi_do_deliver_message, do_delivery_procedure_for_immutable_message,
  rc_more_than_one_subscriber_for_mutable_msg,
}
use so5extra.MsgHierarchy.Deliver.Climb.{types, nearest}
use so5extra.MsgHierarchy.Deliver.Receivers.{
  receivers, mutable-receivers, deliver-Ends, to_the_only, Ends,
}
use so5extra.MsgHierarchy.Deliver.History.{told}

abbrev env : Environment ℕ ℕ
env = record {
  create_mbox = λ e. (e, e + 1);
  make_unique_subscribers_mbox = λ e. (e, e + 1);
  allocate_mbox_id = λ e. (e, e + 1);
}

abbrev derived_two : UpcasterFactory ℕ
derived_two = so_make_upcaster 2 (so_make_upcaster 1 (so_make_upcaster_root 0))

abbrev raw : Message ℕ ℕ
raw = record { root = some derived_two; payload = 77 }

abbrev news : Delivery (TypeIndex ℕ) (MessageRef ℕ ℕ)
news = record {
  delivery_mode = ordinary;
  msg_type = typeid 2;
  message = some raw;
  redirection_deep = 0;
}

abbrev immutable : MessageRef ℕ ℕ → Mutability
immutable m = immutable_message

abbrev mutable : MessageRef ℕ ℕ → Mutability
mutable m = mutable_message

-- The consumer 1 wants two types, the consumer 3 another one, and the consumer 4 leaves.
abbrev requests : List (Request ℕ)
requests =
    wants 4 (typeid 0)
    ∷ wants 1 (typeid 0)
    ∷ wants 3 (typeid 5)
    ∷ wants 2 (typeid 1)
    ∷ leaves 4
    ∷ wants 1 (typeid 2)
    ∷ []

abbrev three_maps : List (ℕ × List (TypeIndex ℕ × ℕ))
three_maps =
    (1, (typeid_mutable_msg 0, 11) ∷ [])
    ∷ (2, (typeid 0, 12) ∷ [])
    ∷ (3, (typeid_mutable_msg 1, 13) ∷ [])
    ∷ []

abbrev controller : Controller ℕ ℕ
controller = record {
  mbox_type = multi_producer_single_consumer;
  consumer_id_counter = 3;
  consumers_with_mboxes = three_maps;
}

abbrev served : Controller ℕ ℕ
served = (run env (new_controller multi_producer_multi_consumer, 100) requests).0

served-mboxes :
    told served (types immutable_message derived_two) requests 0 5
    ≡ (some 104, typeid 2) ∷ (some 103, typeid 1) ∷ []
unfolding told types run new_controller acquire_receiving_mbox_for consumer_destroyed
    consumer_map_of mbox_of Map.find Map.emplace Map.modify Map.erase
served-mboxes = refl

-- The mboxes return, but for the mbox 103.
abbrev receive : Sent ℕ ℕ ℕ → Result (Unit {0})
receive s = if s.dest == 103 then throw rc_not_implemented else ok tt

abbrev patient : Sent ℕ ℕ ℕ → Result (Unit {0})
patient s = ok tt

-- The mbox 105 of the last consumer is called only when the mbox 103 does not throw.
abbrev busy : List (Request ℕ)
busy = requests ++ wants 5 (typeid 0) ∷ []

abbrev delivered : (Sent ℕ ℕ ℕ → Result (Unit {0})) → List (ℕ × TypeIndex ℕ) × Ended (Unit {0})
delivered r =
    let c = (run env (new_controller multi_producer_multi_consumer, 100) busy).0 in
    let (sent, ended) = do_deliver_message immutable r news c in
    (map (λ s. (s.dest, s.delivery.msg_type)) sent, ended)

stopped :
    (delivered receive ≡ ((104, typeid 2) ∷ (103, typeid 1) ∷ [], thrown rc_not_implemented))
    × (delivered patient ≡ ((104, typeid 2) ∷ (103, typeid 1) ∷ (105, typeid 0) ∷ [], returned tt))
unfolding run new_controller acquire_receiving_mbox_for consumer_destroyed do_deliver_message
    multi_do_deliver_message do_delivery_procedure_for_immutable_message find_receiver send_to
    Map.find Map.emplace Map.modify Map.erase make_upcaster has_parent_factory parent_upcaster
    lineage
stopped = (refl, refl)

mutable-receivers_example :
    do_deliver_message mutable receive news controller
    ≡ to_the_only receive news (receivers (types mutable_message derived_two) three_maps)
mutable-receivers_example =
    mutable-receivers mutable receive news controller raw derived_two refl refl refl refl

two_receivers :
    to_the_only receive news (receivers (types mutable_message derived_two) three_maps)
    ≡ ([], thrown rc_more_than_one_subscriber_for_mutable_msg)
unfolding to_the_only receivers nearest types Map.find
two_receivers = refl

deliver-Ends_example : Ends receive (do_deliver_message immutable receive news served)
deliver-Ends_example = deliver-Ends immutable receive news served
