-- ===== src/Mboxes/Composite/Tests.antt =====
-- The theorems on the composite mbox at concrete inputs.
use so5extra.Prelude.{ℕ, ◌≡◌, refl, some, none, List, [], ◌∷◌, nat_ord, ltb, if◌then◌else◌}
use so5extra.So5.{
  MboxRef, Mutability, immutable_message, mutable_message, multi_producer_multi_consumer,
  multi_producer_single_consumer, Delivery, ordinary, Call, throw,
  rc_mutable_msg_cannot_be_delivered_via_mpmc_mbox,
}
use so5extra.Mboxes.Composite.{
  throw_if_not_found_case, subscribe_event_handler, unsubscribe_event_handler, set_delivery_filter,
  drop_delivery_filter, do_deliver_message,
}
use so5extra.Mboxes.Composite.Routing.{
  Added, first_added, made, is_refused, routed, or_ignored, made-routed, deliver-routed,
}

abbrev mpmc : ℕ → MboxRef
mpmc id = record { id = id; type = multi_producer_multi_consumer }

abbrev mpsc : ℕ → MboxRef
mpsc id = record { id = id; type = multi_producer_single_consumer }

-- The second `add` is refused for its type's mbox, and the last one since the type is taken.
abbrev adds : List (Added ℕ)
adds =
    record { mutability = immutable_message; msg_type = 8; dest = mpmc 21 }
    ∷ record { mutability = mutable_message; msg_type = 5; dest = mpmc 22 }
    ∷ record { mutability = mutable_message; msg_type = 5; dest = mpsc 23 }
    ∷ record { mutability = immutable_message; msg_type = 8; dest = mpsc 24 }
    ∷ []

abbrev kind : ℕ → Mutability
kind m = if ltb m 100 then immutable_message else mutable_message

abbrev question : Delivery ℕ ℕ
question = record { delivery_mode = ordinary; msg_type = 5; message = 100; redirection_deep = 0 }

destinations :
    (first_added multi_producer_single_consumer 5 adds ≡ some (mpsc 23))
    × (first_added multi_producer_single_consumer 8 adds ≡ some (mpmc 21))
    × (first_added multi_producer_single_consumer 6 adds ≡ none)
unfolding first_added
destinations = (refl, refl, refl)

made-routed_example :
    let b = made 1 multi_producer_single_consumer throw_if_not_found_case adds in
    let dest = first_added multi_producer_single_consumer 6 adds in
    (subscribe_event_handler {S = ℕ} {F = ℕ} {M = ℕ} 6 4 b
      ≡ routed (Call.subscribe_event_handler 6 4) dest throw_if_not_found_case)
    × (unsubscribe_event_handler {S = ℕ} {F = ℕ} {M = ℕ} 6 4 b
        ≡ or_ignored (routed (Call.unsubscribe_event_handler 6 4) dest throw_if_not_found_case))
    × (set_delivery_filter {S = ℕ} {F = ℕ} {M = ℕ} 6 9 4 b
        ≡ routed (Call.set_delivery_filter 6 9 4) dest throw_if_not_found_case)
    × (drop_delivery_filter {S = ℕ} {F = ℕ} {M = ℕ} 6 4 b
        ≡ or_ignored (routed (Call.drop_delivery_filter 6 4) dest throw_if_not_found_case))
made-routed_example =
    made-routed 1 multi_producer_single_consumer throw_if_not_found_case adds 6 4 9

deliver-routed_example :
    do_deliver_message {S = ℕ} {F = ℕ} kind question
      (made 1 multi_producer_single_consumer throw_if_not_found_case adds)
    ≡ (if is_refused multi_producer_single_consumer (kind 100)
        then throw rc_mutable_msg_cannot_be_delivered_via_mpmc_mbox
        else routed
            (Call.do_deliver_message question)
            (first_added multi_producer_single_consumer 5 adds)
            throw_if_not_found_case)
deliver-routed_example =
    deliver-routed 1 multi_producer_single_consumer throw_if_not_found_case adds kind question
