-- ===== src/RevocableTimer/Released.antt =====
-- After the release of a timer its message is not handled any more.
use so5extra.Prelude.{
  ℕ, zero, suc, ◌≡◌, refl, true, false, Option, none, some, List, [], ◌∷◌, get_elem?, set, length,
  inl, inr, Option-cases, ◌==◌,
}
use so5extra.So5.{Result-cases}
use so5extra.RevocableMsg.{
  Envelope, held_by, revoke_envelope, revoke, access_hook, pointer_of, SendArgs,
}
use so5extra.RevocableMsg.Revocation.{
  is_revoked, revoke-is_revoked, send-is_revoked, not_accessed, held-is_revoked, others_accessed,
}
use so5extra.RevocableMsg
use so5extra.RevocableTimer.{
  Timers, World, actual_of, released, release, move, make_envelope_and_initiate_timer,
  send_periodic, send_delayed,
}

pub data Event (T Mbox Duration M : Type 0) : Type 0 where
  sends_periodic : Mbox → T → Duration → Duration → SendArgs M → ℕ → Event T Mbox Duration M
  sends_delayed : Mbox → T → Duration → SendArgs M → ℕ → Event T Mbox Duration M
  releases : ℕ → Event T Mbox Duration M
  moves : ℕ → ℕ → Event T Mbox Duration M

set-none : (ids : List (Option ℕ)) (i : ℕ) → pointer_of (get_elem? (set ids i none) i) ≡ none
set-none [] i = refl
set-none (x ∷ ids) zero = refl
set-none (x ∷ ids) (suc i) = set-none ids i

module _ {M T Mbox Duration A O : Type 0} (so : Timers T Mbox Duration A O) (null : M)
    (nothing : Duration) where
  unfoldable pub step : World M A O → Event T Mbox Duration M → World M A O
  unfolding release move send_periodic send_delayed
  step w (sends_periodic to t pause period args i) =
      (send_periodic so null to t pause period args i w).0
  step w (sends_delayed to t pause args i) = (send_delayed so null nothing to t pause args i w).0
  step w (releases i) = release so i w
  step w (moves i j) = move so i j w

  unfoldable pub run : World M A O → List (Event T Mbox Duration M) → World M A O
  unfolding step
  run w [] = w
  run w (e ∷ es) = run (step w e) es

  release-revoke : (i : ℕ) (w : World M A O) → (release so i w).messages ≡ revoke i w.messages
  unfolding release revoke
  release-revoke i w = elim (Option-cases (held_by i w.messages)) [
    | inl h ↦ rw (h, release, revoke) refl
    | inr (p, h) ↦ rw (h, release, revoke) refl
  ]

  initiate-is_revoked :
      (to : Mbox) (t : T) (payload : M) (pause period : Duration) (i p : ℕ) (w : World M A O)
      → is_revoked p w.messages ≡ true
      → is_revoked p (make_envelope_and_initiate_timer so to t payload pause period i w).0.messages
        ≡ true
  unfolding make_envelope_and_initiate_timer
  initiate-is_revoked to t payload pause period i p w h =
      let r = (so.schedule_timer t (length w.messages.envelopes) to pause period w.timers).1 in
      elim (Result-cases r) [
        | inl (a, e) ↦ rw (e, make_envelope_and_initiate_timer) (send-is_revoked p w.messages _ _ h)
        | inr (x, e) ↦ rw (e, make_envelope_and_initiate_timer) h
      ]

  step-is_revoked :
      (p : ℕ) (w : World M A O) (e : Event T Mbox Duration M)
      → is_revoked p w.messages ≡ true
      → is_revoked p (step w e).messages ≡ true
  unfolding step send_periodic send_delayed move RevocableMsg.move is_revoked
  step-is_revoked p w (sends_periodic to t pause period args i) h =
      initiate-is_revoked to t _ pause period i p w h
  step-is_revoked p w (sends_delayed to t pause args i) h =
      initiate-is_revoked to t _ pause nothing i p w h
  step-is_revoked p w (releases i) h = rw (release-revoke i w) (revoke-is_revoked p i w.messages h)
  step-is_revoked p w (moves i j) h = h

  run-is_revoked :
      (p : ℕ) (w : World M A O) (es : List (Event T Mbox Duration M))
      → is_revoked p w.messages ≡ true
      → is_revoked p (run w es).messages ≡ true
  unfolding run
  run-is_revoked p w [] h = h
  run-is_revoked p w (e ∷ es) h = run-is_revoked p (step w e) es (step-is_revoked p w e h)

  release-unheld : (i : ℕ) (w : World M A O) → held_by i w.messages ≡ none → release so i w ≡ w
  unfolding release
  release-unheld i w h = rw (h, release) refl

  release-held :
      (p i : ℕ) (w : World M A O)
      → held_by i w.messages ≡ some p
      → held_by i (release so i w).messages ≡ none
  unfolding release revoke_envelope
  release-held p i w h = rw (h, release) (set-none w.messages.ids i)

  releases_actual :
      (p i : ℕ) (w : World M A O)
      → held_by i w.messages ≡ some p
      → (release so i w).timers ≡ released so (actual_of (get_elem? w.actual_ids i)) w.timers
  unfolding release
  releases_actual p i w h = rw (h, release) refl

  -- After the release of a timer whose envelope is `p`, no handler gets the payload of `p`, whatever is
  -- scheduled, released and moved afterwards. The actual timer of the variable is released, by the
  -- first release only: a second one, such as that of the destructor, changes nothing. The other
  -- envelopes are as before.
  pub release_exactly :
      (p i q : ℕ) (e : Envelope M) (w : World M A O) (es : List (Event T Mbox Duration M))
      → held_by i w.messages ≡ some p
      → get_elem? w.messages.envelopes p ≡ some e
      → p == q ≡ false
      → (access_hook p (run (release so i w) es).messages ≡ none)
        × (access_hook q (release so i w).messages ≡ access_hook q w.messages)
        × ((release so i w).timers ≡ released so (actual_of (get_elem? w.actual_ids i)) w.timers)
        × (release so i (release so i w) ≡ release so i w)
  release_exactly p i q e w es h there n = (
    not_accessed p _ (
        run-is_revoked p _ es (rw (release-revoke i w) (held-is_revoked p i w.messages e h there))),
    rw (release-revoke i w) (others_accessed p q i w.messages h n),
    releases_actual p i w h,
    release-unheld i (release so i w) (release-held p i w h),
  )
