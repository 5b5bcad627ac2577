-- ===== src/RevocableMsg.antt =====
-- dev/so_5_extra/revocable_msg/pub.hpp: the envelope with its atomic flag, `delivery_id_t`, and
-- `make_envelope_and_deliver`. An envelope is shared by the queues that it was delivered to and by at
-- most one `delivery_id_t`; the store of the envelopes is explicit, and so are the variables that hold
-- a `delivery_id_t`. Each access to the flag is one step.
pub mod Revocation
pub mod Assignment
mod Tests
use so5extra.Prelude.{
  ℕ, ◌+◌, Bool, true, false, Option, none, some, List, [], ◌∷◌, ◌++◌, get_elem?, set, length,
  if◌then◌else◌,
}
use so5extra.So5.{Delivery, ordinary, Mutability, Error, extra, Result, throw}
use so5extra.So5.Errors.{revocable_msg_errors}

abbrev pub rc_mutabilty_of_envelope_cannot_be_changed : Error
rc_mutabilty_of_envelope_cannot_be_changed = extra (revocable_msg_errors + 1)

pub record Envelope (M : Type 0) : Type 0 where
  pub revoked : Bool
  pub payload : M

-- `ids` are the variables; each holds a pointer to an envelope or null.
pub record World (M : Type 0) : Type 0 where
  pub envelopes : List (Envelope M)
  pub ids : List (Option ℕ)

abbrev pub pointer_of : Option (Option ℕ) → Option ℕ
pointer_of none = none
pointer_of (some p) = p

-- What the forms of `send` are called with; `M` stands for message pointers, null included.
pub data SendArgs (M : Type 0) : Type 0 where
  instance_of redirected : M → SendArgs M
  signal redirected_signal : SendArgs M

module _ {M : Type 0} where
  abbrev pub set_revoked : Option (Envelope M) → ℕ → List (Envelope M) → List (Envelope M)
  set_revoked none p l = l
  set_revoked (some e) p l = set l p (record e { revoked = true })

  -- `envelope_t::revoke`.
  unfoldable pub revoke_envelope : ℕ → World M → World M
  revoke_envelope p w = record w { envelopes = set_revoked (get_elem? w.envelopes p) p w.envelopes }

  -- `envelope_t::access_hook`: the payload that the invoker is called with, if it is called.
  unfoldable pub access_hook : ℕ → World M → Option M
  access_hook p w = elim (get_elem? w.envelopes p) [
    | none ↦ none
    | some e ↦ if e.revoked then none else some e.payload
  ]

  abbrev pub held_by : ℕ → World M → Option ℕ
  held_by i w = pointer_of (get_elem? w.ids i)

  -- `delivery_id_t::revoke`, and the destructor, which calls it.
  unfoldable pub revoke : ℕ → World M → World M
  unfolding revoke_envelope
  revoke i w = elim (held_by i w) [
    | none ↦ w
    | some p ↦ revoke_envelope p (record w { ids = set w.ids i none })
  ]

  unfoldable pub has_been_revoked : ℕ → World M → Bool
  has_been_revoked i w = elim (held_by i w) [
    | none ↦ true
    | some p ↦ elim (get_elem? w.envelopes p) [ none ↦ true | some e ↦ e.revoked ]
  ]

  -- The move assignment, which is the default one: what `to` held is let go, and not revoked.
  unfoldable pub move : ℕ → ℕ → World M → World M
  move source to w = record w { ids = set (set w.ids source none) to (held_by source w) }

  -- `make_envelope_and_deliver`, whose result is assigned to the variable `i`: the new envelope, as the
  -- message of the delivery.
  unfoldable pub make_envelope_and_deliver :
      {T : Type 0} → T → M → ℕ → World M → World M × Delivery T ℕ
  make_envelope_and_deliver msg_type payload i w = (
    record {
      envelopes = w.envelopes ++ record { revoked = false; payload = payload } ∷ [];
      ids = set w.ids i (some (length w.envelopes));
    },
    record {
      delivery_mode = ordinary;
      msg_type = msg_type;
      message = length w.envelopes;
      redirection_deep = 1;
    },
  )

  pub swap : ℕ → ℕ → World M → World M
  swap a b w = record w { ids = set (set w.ids a (held_by b w)) b (held_by a w) }

  -- `envelope_t::so5_message_mutability`.
  pub so5_message_mutability : (M → Mutability) → Envelope M → Mutability
  so5_message_mutability message_mutability e = message_mutability e.payload

  -- `envelope_t::so5_change_mutability`.
  pub so5_change_mutability : Mutability → Envelope M → Result (Unit {0})
  so5_change_mutability m e = throw rc_mutabilty_of_envelope_cannot_be_changed

  unfoldable pub payload_of : M → SendArgs M → M
  payload_of null (instance_of m) = m
  payload_of null (redirected m) = m
  payload_of null signal = null
  payload_of null redirected_signal = null

  -- The forms of `send`, with the null pointer.
  pub send : {T : Type 0} → M → T → SendArgs M → ℕ → World M → World M × Delivery T ℕ
  unfolding payload_of make_envelope_and_deliver
  send null msg_type args i w = make_envelope_and_deliver msg_type (payload_of null args) i w
