-- ===== src/RevocableMsg/Revocation.antt =====
-- A message is handled until it is revoked, and never after.
use so5extra.Prelude.{
  ℕ, zero, suc, ◌≡◌, refl, Bool, true, false, Option, none, some, List, [], ◌∷◌, ◌++◌, arith,
  get_elem?, set, length, if◌then◌else◌, inl, inr, Option-cases, ◌==◌,
}
use so5extra.RevocableMsg.{
  Envelope, World, revoke_envelope, access_hook, held_by, revoke, move, make_envelope_and_deliver,
}

pub data Event (M : Type 0) : Type 0 where
  sends : M → ℕ → Event M
  revokes : ℕ → Event M
  moves : ℕ → ℕ → Event M
  accesses : ℕ → Event M

module _ {M : Type 0} where
  unfoldable pub step : World M → Event M → World M
  step w (sends payload i) = (make_envelope_and_deliver tt payload i w).0
  step w (revokes i) = revoke i w
  step w (moves i j) = move i j w
  step w (accesses p) = w

  -- The payloads that the handlers get of the envelope `p` in the course of the events.
  unfoldable pub handled : ℕ → World M → List (Event M) → List M
  unfolding step
  handled p w [] = []
  handled p w (accesses q ∷ es) =
      let rest = handled p w es in
      if q == p
      then (elim (access_hook p w) [ none ↦ rest | some payload ↦ payload ∷ rest ])
      else rest
  handled p w (sends payload i ∷ es) = handled p (step w (sends payload i)) es
  handled p w (revokes i ∷ es) = handled p (step w (revokes i)) es
  handled p w (moves i j ∷ es) = handled p (step w (moves i j)) es

  -- The envelope is there, and is revoked.
  unfoldable pub is_revoked : ℕ → World M → Bool
  is_revoked p w = elim (get_elem? w.envelopes p) [ none ↦ false | some e ↦ e.revoked ]

  pub get_elem?-append :
      (l : List (Envelope M)) (x : Envelope M) (i : ℕ) (e : Envelope M)
      → get_elem? l i ≡ some e
      → get_elem? (l ++ x ∷ []) i ≡ some e
  get_elem?-append [] x i e h = ground (arith, h)
  get_elem?-append (y ∷ l) x zero e h = h
  get_elem?-append (y ∷ l) x (suc i) e h = get_elem?-append l x i e h

  set-lookup :
      (l : List (Envelope M)) (q p : ℕ) (v : Envelope M)
      → get_elem? (set l q v) p ≡ (
          if q == p
          then (elim (get_elem? l p) [ none ↦ none | some e ↦ some v ])
          else get_elem? l p)
  set-lookup [] q p v = ground arith
  set-lookup (x ∷ l) zero zero v = refl
  set-lookup (x ∷ l) zero (suc p) v = ground arith
  set-lookup (x ∷ l) (suc q) zero v = ground arith
  set-lookup (x ∷ l) (suc q) (suc p) v = ground (arith, set-lookup l q p v)

  -- A search after a revocation.
  pub revoke-lookup :
      (q p : ℕ) (w : World M)
      → get_elem? (revoke_envelope q w).envelopes p ≡ (
          if q == p
          then (elim (get_elem? w.envelopes p) [
            | none ↦ none
            | some e ↦ some (record e { revoked = true })
          ])
          else get_elem? w.envelopes p)
  unfolding revoke_envelope
  revoke-lookup q p w = elim (Option-cases (get_elem? w.envelopes q)) [
    | inl h ↦ ground (arith, h)
    | inr (e, h) ↦ ground (arith, h, set-lookup w.envelopes q p (record e { revoked = true }))
  ]

  revoke_envelope-is_revoked :
      (p q : ℕ) (w : World M) → is_revoked p w ≡ true → is_revoked p (revoke_envelope q w) ≡ true
  unfolding is_revoked
  revoke_envelope-is_revoked p q w h = ground (arith, h, revoke-lookup q p w)

  pub revoke-is_revoked :
      (p i : ℕ) (w : World M) → is_revoked p w ≡ true → is_revoked p (revoke i w) ≡ true
  unfolding revoke is_revoked
  revoke-is_revoked p i w h = elim (Option-cases (held_by i w)) [
    | inl g ↦ rw (g, revoke) h
    | inr (q, g) ↦
        rw (g, revoke) (revoke_envelope-is_revoked p q (record w { ids = set w.ids i none }) h)
  ]

  pub send-is_revoked :
      (p : ℕ) (w : World M) (x : Envelope M) (ids : List (Option ℕ))
      → is_revoked p w ≡ true
      → is_revoked p (record { envelopes = w.envelopes ++ x ∷ []; ids = ids }) ≡ true
  unfolding is_revoked
  send-is_revoked p w x ids h = elim (Option-cases (get_elem? w.envelopes p)) [
    | inl g ↦ ground (arith, h, g)
    | inr (e, g) ↦ ground (arith, h, g, get_elem?-append w.envelopes x p e g)
  ]

  step-is_revoked :
      (p : ℕ) (w : World M) (e : Event M) → is_revoked p w ≡ true → is_revoked p (step w e) ≡ true
  unfolding step is_revoked make_envelope_and_deliver move
  step-is_revoked p w (sends payload i) h =
      send-is_revoked p w (record { revoked = false; payload = payload })
        (set w.ids i (some (length w.envelopes))) h
  step-is_revoked p w (revokes i) h = revoke-is_revoked p i w h
  step-is_revoked p w (moves i j) h = h
  step-is_revoked p w (accesses q) h = h

  pub not_accessed : (p : ℕ) (w : World M) → is_revoked p w ≡ true → access_hook p w ≡ none
  unfolding is_revoked access_hook
  not_accessed p w h = ground (arith, h)

  never_handled :
      (p : ℕ) (w : World M) (es : List (Event M)) → is_revoked p w ≡ true → handled p w es ≡ []
  unfolding handled
  never_handled p w [] h = refl
  never_handled p w (accesses q ∷ es) h = ground (arith, not_accessed p w h, never_handled p w es h)
  never_handled p w (sends payload i ∷ es) h =
      never_handled p (step w (sends payload i)) es (step-is_revoked p w (sends payload i) h)
  never_handled p w (revokes i ∷ es) h =
      never_handled p (step w (revokes i)) es (step-is_revoked p w (revokes i) h)
  never_handled p w (moves i j ∷ es) h =
      never_handled p (step w (moves i j)) es (step-is_revoked p w (moves i j) h)

  pub held-is_revoked :
      (p i : ℕ) (w : World M) (e : Envelope M)
      → held_by i w ≡ some p
      → get_elem? w.envelopes p ≡ some e
      → is_revoked p (revoke i w) ≡ true
  unfolding revoke is_revoked
  held-is_revoked p i w e g h =
      rw (g, revoke) (ground (arith, h, revoke-lookup p p (record w { ids = set w.ids i none })))

  pub others_accessed :
      (p q i : ℕ) (w : World M)
      → held_by i w ≡ some p
      → p == q ≡ false
      → access_hook q (revoke i w) ≡ access_hook q w
  unfolding revoke access_hook
  others_accessed p q i w g n =
      rw (g, revoke) (ground (arith, n, revoke-lookup p q (record w { ids = set w.ids i none })))

  -- After the revocation by the `delivery_id_t` that holds the envelope `p`, no handler gets its
  -- payload any more, whatever is sent, revoked, moved and accessed afterwards; and the revocation
  -- changes nothing for the other envelopes.
  pub revoke_exactly :
      (p i : ℕ) (w : World M) (e : Envelope M) (es : List (Event M)) (q : ℕ)
      → held_by i w ≡ some p
      → get_elem? w.envelopes p ≡ some e
      → p == q ≡ false
      → (handled p (revoke i w) es ≡ []) × (access_hook q (revoke i w) ≡ access_hook q w)
  revoke_exactly p i w e es q g h n =
      (never_handled p (revoke i w) es (held-is_revoked p i w e g h), others_accessed p q i w g n)
