-- ===== src/EnvelopedMsg/Deadlines.antt =====
-- A message that is put into envelopes one after another, sent, and opened.
use so5extra.Prelude.{
  some, none, Option-cases, ◌≡◌, refl, ◌∙◌, ap, List, [], ◌∷◌, arith, if◌then◌else◌, inl, inr,
}
use so5extra.So5.{Mutability, Result, ok, throw, Delivery, ordinary}
use so5extra.EnvelopedMsg.{
  Clock, Message, message, just_envelope, time_limited_delivery, EnvelopeArgs, just, deadline,
  interval, message_mutability, just_access_hook, time_limited_access_hook, make_envelope, Holder,
  make, with_data, envelope, send_to, rc_empty_payload_holder,
}

-- What the receiver's handler does with an envelope: it opens it, again with itself as the invoker, as
-- SObjectizer does for a message in several envelopes.
pub record IsHandler {M Time Duration O : Type 0} (clock : Clock Time Duration O)
    (handle : Message M Time → O → O) : Type 0 where
  pub opens_just :
      (p : Message M Time) (o : O) → handle (just_envelope p) o ≡ just_access_hook clock handle p o
  pub opens_time_limited :
      (p : Message M Time) (d : Time) (o : O)
      → handle (time_limited_delivery p d) o ≡ time_limited_access_hook clock handle p d o

module _ {T M Time Duration O : Type 0} (clock : Clock Time Duration O) where
  -- `make<Message>(...).envelope<...>(...).envelope<...>(...)`, the first of the list first.
  unfoldable pub envelope_all :
      List (EnvelopeArgs Time Duration) → Holder T M Time → O → O × Result (Holder T M Time)
  unfolding envelope
  envelope_all [] h o = (o, ok h)
  envelope_all (a ∷ args) h o =
      let (_, o', r) = envelope clock a h o in
      elim r [ throw e ↦ (o', throw e) | ok h' ↦ envelope_all args h' o' ]

  unfoldable pub send_in :
      List (EnvelopeArgs Time Duration)
      → (Delivery T (Message M Time) → O → O × Result (Unit {0}))
      → Holder T M Time
      → O
      → O × Result (Unit {0})
  unfolding envelope_all send_to
  send_in args deliver h o =
      let (o', r) = envelope_all args h o in
      elim r [ throw e ↦ (o', throw e) | ok h' ↦ send_to deliver h' o' ]

module _ {Time Duration O : Type 0} (clock : Clock Time Duration O) where
  -- The deadlines that envelopes get, the outermost first, before those in `inside`.
  unfoldable pub due : List (EnvelopeArgs Time Duration) → O → List Time → O × List Time
  due [] o inside = (o, inside)
  due (just ∷ args) o inside = due args o inside
  due (deadline d ∷ args) o inside = due args o (d ∷ inside)
  due (interval d ∷ args) o inside =
      let (o', t) = clock.now o in due args o' (clock.plus t d ∷ inside)

module _ {M Time Duration O : Type 0} (clock : Clock Time Duration O)
    (handle : Message M Time → O → O) where
  -- The clock is read for one deadline after another, until one has passed.
  unfoldable pub opened : List Time → M → O → O
  opened [] m o = handle (message m) o
  opened (d ∷ ds) m o = let (o', t) = clock.now o in if clock.later d t then opened ds m o' else o'

module _ {T M Time Duration O : Type 0} (clock : Clock Time Duration O)
    (mutability : M → Mutability) (handle : Message M Time → O → O)
    (deliver : Delivery T (Message M Time) → O → O × Result (Unit {0})) (msg_type : T) (m : M) where
  -- The message `w` is `m` in envelopes with the deadlines `ds`.
  pub record Holds (w : Message M Time) (ds : List Time) : Type 0 where
    pub opens : (o : O) → handle w o ≡ opened clock handle ds m o
    pub keeps_mutability : message_mutability mutability w ≡ mutability m

  pub delivery_of : Message M Time → Delivery T (Message M Time)
  delivery_of w = record {
    delivery_mode = ordinary;
    msg_type = msg_type;
    message = w;
    redirection_deep = 1;
  }

  module _ (h : IsHandler clock handle) where
    just-Holds : (w : Message M Time) (ds : List Time) → Holds w ds → Holds (just_envelope w) ds
    unfolding message_mutability just_access_hook
    just-Holds w ds v = record {
      opens = λ o. h.opens_just w o ∙ v.opens o;
      keeps_mutability = v.keeps_mutability;
    }

    limited-Holds :
        (w : Message M Time) (ds : List Time) (d : Time)
        → Holds w ds
        → Holds (time_limited_delivery w d) (d ∷ ds)
    unfolding message_mutability time_limited_access_hook opened
    limited-Holds w ds d v = record {
      opens = λ o.
          h.opens_time_limited w d o
          ∙ ap (λ x. if clock.later d (clock.now o).1 then x else (clock.now o).0)
              (v.opens (clock.now o).0);
      keeps_mutability = v.keeps_mutability;
    }

    -- What `send_in` does with the holder of `w`.
    Sent : List (EnvelopeArgs Time Duration) → Message M Time → List Time → O → Type 0
    Sent args w ds o =
        (w' : Message M Time) × (send_in clock args deliver (record { data_ = some (msg_type, w) })
            o
          ≡ deliver (delivery_of w') (due clock args o ds).0)
        × Holds w' (due clock args o ds).1

    Sent-by :
        (args : List (EnvelopeArgs Time Duration)) (w : Message M Time) (ds : List Time) (o : O)
        → Holds w ds
        → Sent args w ds o
    unfolding due send_in envelope_all envelope make_envelope send_to with_data delivery_of Sent
    Sent-by [] w ds o v = (w, refl, v)
    Sent-by (just ∷ args) w ds o v = Sent-by args (just_envelope w) ds o (just-Holds w ds v)
    Sent-by (deadline d ∷ args) w ds o v =
        Sent-by args (time_limited_delivery w d) (d ∷ ds) o (limited-Holds w ds d v)
    Sent-by (interval i ∷ args) w ds o v =
        let (o', t) = clock.now o in
        let d = clock.plus t i in
        Sent-by args (time_limited_delivery w d) (d ∷ ds) o' (limited-Holds w ds d v)

    -- A message that is made, put into envelopes one after another and sent is delivered once, in the
    -- state after all intervals are added to the time, with the type and the mutability of the message
    -- itself. When the receiver opens it, the deadlines are compared with the time, the outermost
    -- first; the message is handled if the time is before all of them, and else nothing is handled.
    pub make-Sent :
        (args : List (EnvelopeArgs Time Duration)) (o : O)
        → (w : Message M Time) × (send_in clock args deliver (make msg_type m) o
            ≡ deliver (delivery_of w) (due clock args o []).0)
          × Holds w (due clock args o []).1
    unfolding make opened message_mutability Sent
    make-Sent args o =
        Sent-by args (message m) [] o (record { opens = λ o. refl; keeps_mutability = refl })

module _ {T M Time Duration O : Type 0} (clock : Clock Time Duration O) where
  -- Whatever `envelope()` returns, the holder that it is called on is empty afterwards.
  envelope-empty :
      (a : EnvelopeArgs Time Duration) (h : Holder T M Time) (o : O)
      → (envelope clock a h o).0.data_ ≡ none
  unfolding envelope
  envelope-empty a h o = elim (Option-cases h.data_) [
    | inl e ↦ ground (arith, e)
    | inr (x, e) ↦ ground (arith, e)
  ]

  -- A holder that was put into an envelope can be neither put into another one nor sent.
  used_once :
      (a b : EnvelopeArgs Time Duration) (h : Holder T M Time) (o o' : O)
      (deliver : Delivery T (Message M Time) → O → O × Result (Unit {0}))
      → ((envelope clock b (envelope clock a h o).0 o').2 ≡ throw rc_empty_payload_holder)
        × (send_to deliver (envelope clock a h o).0 o' ≡ (o', throw rc_empty_payload_holder))
  unfolding envelope send_to with_data
  used_once a b h o o' deliver =
      let e = envelope-empty a h o in (ground (arith, e), ground (arith, e))
