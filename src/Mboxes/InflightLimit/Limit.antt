-- ===== src/Mboxes/InflightLimit/Limit.antt =====
-- One `do_deliver_message` that no other one overlaps.
use so5extra.Prelude.{ℕ, ◌+◌, ◌<◌, ◌≤◌, ◌≡◌, ◌==◌, ◌∷◌, arith, Ord, length, leb, if◌then◌else◌}
use so5extra.So5.{Result, ok, throw, Delivery}
use so5extra.Mboxes.InflightLimit.{
  Mbox, World, Envelope, Outcome, redirected, too_many_inflight_messages, counter_mod,
  rc_different_message_type, do_deliver_message,
}

-- The counter is the number of the envelopes, which is at most the limit.
pub record IsCounted {M : Type 0} (limit : ℕ) (w : World M) : Type 0 where
  pub counted : w.instances ≡ length w.envelopes
  pub bounded : length w.envelopes ≤ limit

module _ {T M : Type 0} ⦃ot : Ord T⦄ (m : Mbox T) where
  -- The result that the documentation promises of one delivery: an error for another type, else a
  -- new envelope while there are fewer than the limit, else a drop.
  pub promised : Delivery T M → World M → Result (World M × Outcome T M)
  promised d w =
      let envelope : Envelope M = record { payload = d.message } in
      if ot.eqb d.msg_type m.msg_type
      then (if leb (length w.envelopes + 1) m.limit
          then ok (
            record { instances = w.instances + 1; envelopes = envelope ∷ w.envelopes },
            redirected (record {
              delivery_mode = d.delivery_mode;
              msg_type = d.msg_type;
              message = envelope;
              redirection_deep = d.redirection_deep;
            }),
          )
          else ok (w, too_many_inflight_messages m.limit (length w.envelopes + 1)))
      else throw rc_different_message_type

  -- What becomes of the message when the counter is at the end of its range.
  pub wrapped : Delivery T M → World M → Result (World M × Outcome T M)
  wrapped d w =
      let envelope : Envelope M = record { payload = d.message } in
      if ot.eqb d.msg_type m.msg_type
      then ok (
        record { instances = 0; envelopes = envelope ∷ w.envelopes },
        redirected (record {
          delivery_mode = d.delivery_mode;
          msg_type = d.msg_type;
          message = envelope;
          redirection_deep = d.redirection_deep;
        }),
      )
      else throw rc_different_message_type

  -- With any unsigned limit and a counter that counts the envelopes, a delivery does what is promised,
  -- but when 2 ^ 32 - 1 envelopes are alive: for another type it throws, below the limit it passes the
  -- message on in a new envelope, and at the limit it drops the message and leaves the counter as it
  -- was. With 2 ^ 32 - 1 envelopes, which only the greatest limit allows, the counter wraps round to 0,
  -- and a message of the type is passed on above the limit.
  pub deliver-promised :
      (d : Delivery T M) (w : World M)
      → m.limit < counter_mod
      → IsCounted m.limit w
      → do_deliver_message m d w
        ≡ (if length w.envelopes + 1 == counter_mod then wrapped d w else promised d w)
  unfolding do_deliver_message promised wrapped
  deliver-promised d w h c = ground arith
