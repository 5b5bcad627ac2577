-- ===== src/Mboxes/InflightLimit/Tests.antt =====
-- Runs of the inflight_limit mbox, and its theorems at concrete inputs.
use so5extra.Prelude.{
  ℕ, ◌≤◌, ◌≡◌, refl, none, some, true, false, List, [], ◌∷◌, ◌++◌, arith, length, nat_ord,
}
use so5extra.So5.{
  Delivery, ordinary, MboxRef, multi_producer_multi_consumer, immutable_message, mutable_message,
  ok, throw, rc_mutable_msg_cannot_be_delivered_via_mpmc_mbox,
}
use so5extra.Mboxes.InflightLimit.{
  Mbox, World, increment, destroy_incrementer, do_not_decrement_in_destructor, make_mbox,
  do_deliver_message, rc_nullptr_as_underlying_mbox, too_many_inflight_messages,
}
use so5extra.Mboxes.InflightLimit.Limit.{promised, deliver-promised}
use so5extra.Mboxes.InflightLimit.Subscriptions.{
  Asked, subscribes, unsubscribes, sets_filter, is_subscribed, underlying, never_unsubscribed,
}
use so5extra.Mboxes.InflightLimit.Senders.{Sys, Reach, start, next, enters, passes, Reach-limit}

abbrev board : MboxRef
board = record { id = 3; type = multi_producer_multi_consumer }

abbrev one_at_a_time : Mbox ℕ
one_at_a_time = record { underlying_mbox = board; msg_type = 7; limit = 1 }

made :
    (make_mbox {T = ℕ} immutable_message 7 (some board) 1 ≡ ok one_at_a_time)
    × (make_mbox {T = ℕ} mutable_message 7 (some board) 1
        ≡ throw rc_mutable_msg_cannot_be_delivered_via_mpmc_mbox)
    × (make_mbox {T = ℕ} immutable_message 7 none 1 ≡ throw rc_nullptr_as_underlying_mbox)
unfolding make_mbox
made = (refl, refl, refl)

abbrev hello : Delivery ℕ ℕ
hello = record { delivery_mode = ordinary; msg_type = 7; message = 40; redirection_deep = 0 }

abbrev busy : World ℕ
busy = record { instances = 1; envelopes = record { payload = 39 } ∷ [] }

dropped : do_deliver_message one_at_a_time hello busy ≡ ok (busy, too_many_inflight_messages 1 2)
unfolding do_deliver_message
dropped = refl

deliver-promised_example :
    do_deliver_message one_at_a_time hello busy ≡ promised one_at_a_time hello busy
deliver-promised_example = deliver-promised one_at_a_time hello busy (omega arith) (omega arith)

-- The sink 2 subscribes, sets a filter, and unsubscribes.
abbrev comes_and_goes : List (Asked ℕ ℕ ℕ)
comes_and_goes = sets_filter 7 5 2 ∷ unsubscribes 7 2 ∷ []

never_unsubscribed_example :
    is_subscribed 7 2 false
      (underlying {M = ℕ} one_at_a_time ([] ++ subscribes 7 2 ∷ comes_and_goes))
    ≡ true
never_unsubscribed_example = never_unsubscribed ℕ ℕ one_at_a_time [] comes_and_goes 2

-- Two threads are in the mbox at once; the first has passed the check.
abbrev first_in : Sys ℕ
first_in = record {
  instances = 1;
  senders = (record { value = 1; should_decrement_in_destructor = true }, 40) ∷ [];
  envelopes = [];
}

abbrev both_in : Sys ℕ
both_in = record {
  instances = 2;
  senders =
      (record { value = 2; should_decrement_in_destructor = true }, 41)
      ∷ (record { value = 1; should_decrement_in_destructor = true }, 40)
      ∷ [];
  envelopes = [];
}

abbrev entered : Sys ℕ
entered = record {
  instances = 2;
  senders = (record { value = 2; should_decrement_in_destructor = true }, 41) ∷ [];
  envelopes = record { payload = 40 } ∷ [];
}

entered-Reach : Reach 1 4 entered
unfolding increment destroy_incrementer do_not_decrement_in_destructor
entered-Reach =
    next {s = both_in}
      (next {s = first_in} (next start (enters 40 (omega arith) refl))
        (enters 41 (omega arith) refl))
      (passes ((record { value = 2; should_decrement_in_destructor = true }, 41) ∷ []) []
        (record { value = 1; should_decrement_in_destructor = true }) 40 refl (omega arith) refl)

Reach-limit_example : (entered.instances ≡ 2) × (length entered.envelopes ≤ 1)
Reach-limit_example = Reach-limit 1 4 (omega arith) {s = entered} entered-Reach
