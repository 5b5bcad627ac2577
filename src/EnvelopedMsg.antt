-- ===== src/EnvelopedMsg.antt =====
-- dev/so_5_extra/enveloped_msg: just_envelope.hpp, time_limited_delivery.hpp, send_functions.hpp and
-- errors.hpp. `M` stands for SObjectizer's messages (the null pointer of a signal included), `O` for
-- the state around, with the steady clock in it.
pub mod Deadlines
mod Tests
use so5extra.Prelude.{ℕ, ◌+◌, Bool, true, false, Option, none, some, List, [], ◌∷◌, if◌then◌else◌}
use so5extra.So5.{
  Mutability, immutable_message, mutable_message, Error, extra, Result, ok, throw, Delivery,
  ordinary,
}
use so5extra.So5.Errors.{enveloped_msg_errors}

abbrev pub rc_mutabilty_of_envelope_cannot_be_changed : Error
rc_mutabilty_of_envelope_cannot_be_changed = extra (enveloped_msg_errors + 1)

abbrev pub rc_empty_payload_holder : Error
rc_empty_payload_holder = extra (enveloped_msg_errors + 2)

-- `std::chrono::steady_clock`: `later s t` is `s > t`.
pub record Clock (Time Duration O : Type 0) : Type 0 where
  pub now : O → O × Time
  pub plus : Time → Duration → Time
  pub later : Time → Time → Bool

-- What a `message_ref_t` points to; an envelope has its payload.
pub data Message (M Time : Type 0) : Type 0 where
  message : M → Message M Time
  just_envelope : Message M Time → Message M Time
  time_limited_delivery : Message M Time → Time → Message M Time

-- The arguments of `envelope()`: the class, and a deadline or an interval for the second one.
pub data EnvelopeArgs (Time Duration : Type 0) : Type 0 where
  just : EnvelopeArgs Time Duration
  deadline : Time → EnvelopeArgs Time Duration
  interval : Duration → EnvelopeArgs Time Duration

unfoldable pub change_allowed : Mutability → Mutability → Bool
change_allowed immutable_message immutable_message = true
change_allowed mutable_message mutable_message = true
change_allowed immutable_message mutable_message = false
change_allowed mutable_message immutable_message = false

module _ {M Time : Type 0} (mutability : M → Mutability) where
  unfoldable pub message_mutability : Message M Time → Mutability
  message_mutability (message m) = mutability m
  message_mutability (just_envelope p) = message_mutability p
  message_mutability (time_limited_delivery p d) = message_mutability p

  -- `so5_change_mutability` of an envelope with the given payload.
  unfoldable pub so5_change_mutability : Mutability → Message M Time → Result (Unit {0})
  unfolding message_mutability change_allowed
  so5_change_mutability new_value payload =
      if change_allowed new_value (message_mutability payload)
      then ok tt
      else throw rc_mutabilty_of_envelope_cannot_be_changed

module _ {M Time Duration O : Type 0} (clock : Clock Time Duration O) where
  module _ (invoke : Message M Time → O → O) where
    -- `access_hook` of the two classes, whose invoker gets the payload.
    unfoldable pub just_access_hook : Message M Time → O → O
    just_access_hook payload o = invoke payload o

    unfoldable pub time_limited_access_hook : Message M Time → Time → O → O
    time_limited_access_hook payload d o =
        let (o', t) = clock.now o in if clock.later d t then invoke payload o' else o'

  -- The constructors.
  unfoldable pub make_envelope :
      EnvelopeArgs Time Duration → Message M Time → O → O × Message M Time
  make_envelope just p o = (o, just_envelope p)
  make_envelope (deadline d) p o = (o, time_limited_delivery p d)
  make_envelope (interval d) p o =
      let (o', t) = clock.now o in (o', time_limited_delivery p (clock.plus t d))

-- `payload_holder_t`; it is empty after `envelope()`.
pub record Holder (T M Time : Type 0) : Type 0 where
  pub data_ : Option (T × Message M Time)

abbrev pub empty_holder : {T M Time : Type 0} → Holder T M Time
empty_holder = record { data_ = none }

module _ {T M Time : Type 0} where
  unfoldable pub make : T → M → Holder T M Time
  make msg_type m = record { data_ = some (msg_type, message m) }

  -- What a method does with the data of the holder, after `ensure_not_empty_object`.
  unfoldable pub with_data :
      {O A : Type 0} → Holder T M Time → (T → Message M Time → O → O × Result A) → O → O × Result A
  with_data h f o = elim h.data_ [
    | none ↦ (o, throw rc_empty_payload_holder)
    | some (t, m) ↦ f t m o
  ]

  -- The holder itself and the result of the call.
  unfoldable pub envelope :
      {Duration O : Type 0}
      → Clock Time Duration O
      → EnvelopeArgs Time Duration
      → Holder T M Time
      → O
      → Holder T M Time × O × Result (Holder T M Time)
  unfolding make_envelope
  envelope clock args h o = elim h.data_ [
    | none ↦ (h, o, throw rc_empty_payload_holder)
    | some (t, m) ↦
        let (o', e) = make_envelope clock args m o in
        (empty_holder, o', ok (record { data_ = some (t, e) }))
  ]

  module _ {O A : Type 0} where
    unfoldable pub send_to :
        (Delivery T (Message M Time) → O → O × Result A) → Holder T M Time → O → O × Result A
    unfolding with_data
    send_to deliver h = with_data h λ t m.
        deliver
          (record { delivery_mode = ordinary; msg_type = t; message = m; redirection_deep = 1 })

    -- SObjectizer's `single_timer`, for a given mbox and pause.
    pub send_delayed_to :
        (T → Message M Time → O → O × Result A) → Holder T M Time → O → O × Result A
    send_delayed_to single_timer h = with_data h single_timer

    -- SObjectizer's `schedule_timer`, for a given mbox, pause and period.
    pub send_periodic_to :
        (T → Message M Time → O → O × Result A) → Holder T M Time → O → O × Result A
    send_periodic_to schedule_timer h = with_data h schedule_timer
