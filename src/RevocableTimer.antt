-- ===== src/RevocableTimer.antt =====
-- dev/so_5_extra/revocable_timer/pub.hpp: `timer_id_t` over the envelope of revocable messages. `A`
-- stands for SObjectizer's `timer_id_t`, `O` for the state of its timers.
pub mod Released
mod Tests
use so5extra.Prelude.{
  ℕ, Bool, true, false, Option, none, some, List, [], ◌∷◌, ◌++◌, get_elem?, set, length,
  if◌then◌else◌,
}
use so5extra.So5.{Result, ok, throw}
use so5extra.RevocableMsg
use so5extra.RevocableMsg.{Envelope, held_by, revoke_envelope, SendArgs, payload_of}

-- SObjectizer's timers: `schedule_timer`, `release` and `is_active` of a `timer_id_t`, and what an
-- assignment to it does with the old value.
pub record Timers (T Mbox Duration A O : Type 0) : Type 0 where
  pub schedule_timer : T → ℕ → Mbox → Duration → Duration → O → O × Result A
  pub release : A → O → O
  pub is_active : A → O → Bool
  pub let_go : A → O → O

-- `messages` has the envelopes and, as its `ids`, `m_envelope` of each variable; `actual_ids` is their
-- `m_actual_id`.
pub record World (M A O : Type 0) : Type 0 where
  pub messages : RevocableMsg.World M
  pub actual_ids : List (Option A)
  pub timers : O

abbrev pub actual_of : {A : Type 0} → Option (Option A) → Option A
actual_of none = none
actual_of (some a) = a

module _ {T Mbox Duration A O : Type 0} (so : Timers T Mbox Duration A O) where
  abbrev pub released : Option A → O → O
  released none o = o
  released (some a) o = so.release a o

  abbrev pub gone : Option A → O → O
  gone none o = o
  gone (some a) o = so.let_go a o

module _ {M T Mbox Duration A O : Type 0} (so : Timers T Mbox Duration A O) where
  pub is_active : ℕ → World M A O → Bool
  is_active i w = elim (actual_of (get_elem? w.actual_ids i)) [
    | none ↦ false
    | some a ↦ so.is_active a w.timers
  ]

  -- `release`, which `revoke` and the destructor call.
  unfoldable pub release : ℕ → World M A O → World M A O
  unfolding revoke_envelope
  release i w = elim (held_by i w.messages) [
    | none ↦ w
    | some p ↦ record {
      messages = revoke_envelope p (record w.messages { ids = set w.messages.ids i none });
      actual_ids = set w.actual_ids i none;
      timers = released so (actual_of (get_elem? w.actual_ids i)) w.timers;
    }
  ]

  -- The move assignment, which is the default one.
  unfoldable pub move : ℕ → ℕ → World M A O → World M A O
  unfolding RevocableMsg.move
  move source to w = record {
    messages = RevocableMsg.move source to w.messages;
    actual_ids = set (set w.actual_ids source none) to (actual_of (get_elem? w.actual_ids source));
    timers = gone so (actual_of (get_elem? (set w.actual_ids source none) to)) w.timers;
  }

  -- `make_envelope_and_initiate_timer`, whose result is assigned to the variable `i`.
  unfoldable pub make_envelope_and_initiate_timer :
      Mbox → T → M → Duration → Duration → ℕ → World M A O → World M A O × Result (Unit {0})
  make_envelope_and_initiate_timer to msg_type payload pause period i w =
      let envelope = length w.messages.envelopes in
      let (o', r) = so.schedule_timer msg_type envelope to pause period w.timers in
      elim r [
        | throw e ↦ (record w { timers = o' }, throw e)
        | ok a ↦ (
          record {
            messages = record {
              envelopes =
                  w.messages.envelopes ++ record { revoked = false; payload = payload } ∷ [];
              ids = set w.messages.ids i (some envelope);
            };
            actual_ids = set w.actual_ids i (some a);
            timers = gone so (actual_of (get_elem? w.actual_ids i)) o';
          },
          ok tt,
        )
      ]

  module _ (null : M) where
    -- The forms of `send_periodic`.
    unfoldable pub send_periodic :
        Mbox
        → T
        → Duration
        → Duration
        → SendArgs M
        → ℕ
        → World M A O
        → World M A O × Result (Unit {0})
    unfolding make_envelope_and_initiate_timer payload_of
    send_periodic target msg_type pause period args i w =
        make_envelope_and_initiate_timer target msg_type (payload_of null args) pause period i w

    -- The forms of `send_delayed`, with the duration zero.
    unfoldable pub send_delayed :
        Duration
        → Mbox
        → T
        → Duration
        → SendArgs M
        → ℕ
        → World M A O
        → World M A O × Result (Unit {0})
    unfolding send_periodic
    send_delayed zero target msg_type pause args i w =
        send_periodic target msg_type pause zero args i w
