-- ===== src/Mboxes/InflightLimit.antt =====
-- dev/so_5_extra/mboxes/inflight_limit.hpp. The counter of messages in flight is shared by the mbox
-- and the envelopes; `World` holds it with the envelopes that are alive. A method that does not
-- touch the counter returns the call that it makes of the underlying mbox.
pub mod Limit
pub mod Subscriptions
pub mod Senders
mod Tests
use so5extra.Prelude.{
  ℕ, ◌+◌, ◌-◌, ◌%◌, ◌^◌, ◌≡◌, Bool, true, false, not, Option, none, some, List, [], ◌∷◌, Ord, leb,
  if◌then◌else◌,
}
use so5extra.So5.{
  MboxType, multi_producer_multi_consumer, multi_producer_single_consumer, MboxRef, Error, extra,
  rc_mutable_msg_cannot_be_delivered_via_mpmc_mbox, Mutability, immutable_message, mutable_message,
  Result, ok, throw, ◌>>=◌, ◌>>◌, Delivery, Call,
}
use so5extra.So5.Errors.{mboxes_inflight_limit_errors}

abbrev pub rc_different_message_type : Error
rc_different_message_type = extra mboxes_inflight_limit_errors

abbrev pub rc_nullptr_as_underlying_mbox : Error
rc_nullptr_as_underlying_mbox = extra (mboxes_inflight_limit_errors + 1)

-- `underlying_counter_t` is an unsigned int.
abbrev pub counter_mod : ℕ
counter_mod = 2 ^ 32

-- `counter_incrementer_t`: the constructor increments the counter and keeps the value, and the
-- destructor decrements it unless it is told not to.
pub record Incrementer : Type 0 where
  pub value : ℕ
  pub should_decrement_in_destructor : Bool

unfoldable pub increment : ℕ → ℕ × Incrementer
increment instances =
    let value = (instances + 1) % counter_mod in
    (value, record { value = value; should_decrement_in_destructor = true })

unfoldable pub do_not_decrement_in_destructor : Incrementer → Incrementer
do_not_decrement_in_destructor i = record i { should_decrement_in_destructor = false }

unfoldable pub decrement : ℕ → ℕ
decrement instances = (instances + counter_mod - 1) % counter_mod

unfoldable pub destroy_incrementer : Incrementer → ℕ → ℕ
unfolding decrement
destroy_incrementer i instances =
    if i.should_decrement_in_destructor then decrement instances else instances

-- `special_envelope_t`, less the pointer to the counter.
pub record Envelope (M : Type 0) : Type 0 where
  pub payload : M

pub record World (M : Type 0) : Type 0 where
  pub instances : ℕ
  pub envelopes : List (Envelope M)

-- The destructor of the first envelope, which the owner of its last reference runs.
unfoldable pub destroy_first : {M : Type 0} → World M → World M
unfolding decrement
destroy_first w = elim w.envelopes [
  | [] ↦ w
  | _ ∷ rest ↦ record { instances = decrement w.instances; envelopes = rest }
]

pub record Mbox (T : Type 0) : Type 0 where
  pub underlying_mbox : MboxRef
  pub msg_type : T
  pub limit : ℕ

pub ensure_underlying_mbox_not_null : Option MboxRef → Result MboxRef
ensure_underlying_mbox_not_null none = throw rc_nullptr_as_underlying_mbox
ensure_underlying_mbox_not_null (some mbox) = ok mbox

-- `is_mutable_message< Msg_Type >` is an argument.
pub ensure_valid_message_type_for_underlying_mbox : Mutability → MboxRef → Result (Unit {0})
ensure_valid_message_type_for_underlying_mbox immutable_message mbox = ok tt
ensure_valid_message_type_for_underlying_mbox mutable_message mbox = elim mbox.type [
  | multi_producer_multi_consumer ↦ throw rc_mutable_msg_cannot_be_delivered_via_mpmc_mbox
  | multi_producer_single_consumer ↦ ok tt
]

unfoldable pub make_mbox : {T : Type 0} → Mutability → T → Option MboxRef → ℕ → Result (Mbox T)
unfolding ensure_underlying_mbox_not_null ensure_valid_message_type_for_underlying_mbox
make_mbox mutability msg_type dest_mbox inflight_limit = do
  underlying ← ensure_underlying_mbox_not_null dest_mbox
  ensure_valid_message_type_for_underlying_mbox mutability underlying
  ok (record { underlying_mbox = underlying; msg_type = msg_type; limit = inflight_limit })

-- What a delivery ends in: the message in its envelope goes to the underlying mbox, or the tracer is
-- told the limit and the number.
pub data Outcome (T M : Type 0) : Type 0 where
  redirected : Delivery T (Envelope M) → Outcome T M
  too_many_inflight_messages : ℕ → ℕ → Outcome T M

module _ {T : Type 0} ⦃ot : Ord T⦄ (m : Mbox T) where
  pub ensure_expected_msg_type : T → Result (Unit {0})
  ensure_expected_msg_type msg_type =
      if not (ot.eqb msg_type m.msg_type) then throw rc_different_message_type else ok tt

  unfoldable pub do_deliver_message :
      {M : Type 0} → Delivery T M → World M → Result (World M × Outcome T M)
  unfolding ensure_expected_msg_type increment destroy_incrementer do_not_decrement_in_destructor
  do_deliver_message {M} d w = do
    ensure_expected_msg_type d.msg_type
    let (n, incrementer) = increment w.instances
    let our_envelope : Envelope M = record { payload = d.message }
    if leb incrementer.value m.limit
        then ok (
          record {
            instances = destroy_incrementer (do_not_decrement_in_destructor incrementer) n;
            envelopes = our_envelope ∷ w.envelopes;
          },
          redirected (record {
            delivery_mode = d.delivery_mode;
            msg_type = d.msg_type;
            message = our_envelope;
            redirection_deep = d.redirection_deep;
          }),
        )
        else ok (
          record w { instances = destroy_incrementer incrementer n },
          too_many_inflight_messages m.limit incrementer.value,
        )

  module _ {S F M : Type 0} where
    unfoldable pub subscribe_event_handler : T → S → Result (Call T S F M)
    unfolding ensure_expected_msg_type
    subscribe_event_handler msg_type subscriber = do
      ensure_expected_msg_type msg_type
      ok (Call.subscribe_event_handler msg_type subscriber)

    -- The test is the code's: the call is passed on if the types differ.
    unfoldable pub unsubscribe_event_handler : T → S → Option (Call T S F M)
    unsubscribe_event_handler msg_type subscriber =
        if not (ot.eqb msg_type m.msg_type)
        then some (Call.unsubscribe_event_handler msg_type subscriber)
        else none

    unfoldable pub set_delivery_filter : T → F → S → Result (Call T S F M)
    unfolding ensure_expected_msg_type
    set_delivery_filter msg_type filter subscriber = do
      ensure_expected_msg_type msg_type
      ok (Call.set_delivery_filter msg_type filter subscriber)

    unfoldable pub drop_delivery_filter : T → S → Option (Call T S F M)
    drop_delivery_filter msg_type subscriber =
        if ot.eqb msg_type m.msg_type
        then some (Call.drop_delivery_filter msg_type subscriber)
        else none

abbrev pub new_world : {M : Type 0} → World M
new_world = record { instances = 0; envelopes = [] }

pub id : {T : Type 0} → Mbox T → ℕ
id m = m.underlying_mbox.id

pub type : {T : Type 0} → Mbox T → MboxType
type m = m.underlying_mbox.type
