-- ===== src/RevocableMsg/Assignment.antt =====
-- A `delivery_id_t` that another one is assigned to lets its message go without revoking it.
use so5extra.Prelude.{
  ℕ, zero, suc, ◌≡◌, ◌≢◌, ◌<◌, subst, ap, ◌∙◌, some_inj, false, none, some, List, [], ◌∷◌, arith,
  get_elem?, set, length, inl, inr, Option-cases, All,
}
use so5extra.RevocableMsg.{
  Envelope, World, access_hook, held_by, revoke, move, make_envelope_and_deliver,
}
use so5extra.RevocableMsg.Revocation.{
  Event, sends, revokes, moves, accesses, step, get_elem?-append, revoke-lookup,
}

module _ {ℓ κ} {A : Type ℓ} (P : A → Type κ) where
  All-set : (l : List A) (i : ℕ) (v : A) → P v → All P l → All P (set l i v)
  All-set [] i v p a = tt
  All-set (x ∷ l) zero v p a = (p, a.1)
  All-set (x ∷ l) (suc i) v p a = (a.0, All-set l i v p a.1)

  All-at : (l : List A) (i : ℕ) (v : A) → get_elem? l i ≡ some v → All P l → P v
  All-at [] i v h a = cc
  All-at (x ∷ l) zero v h a = subst P (some_inj.0 h) a.0
  All-at (x ∷ l) (suc i) v h a = All-at l i v h a.1

  -- What stands at `j` does not matter, since it is overwritten.
  All-set-set :
      (l : List A) (i j : ℕ) (blank v : A)
      → P v
      → P blank
      → All P (set l j blank)
      → All P (set (set l i blank) j v)
  All-set-set [] i j blank v p b a = tt
  All-set-set (x ∷ l) zero zero blank v p b a = (p, a.1)
  All-set-set (x ∷ l) zero (suc j) blank v p b a = (b, All-set_again l j blank v p a.1)
    where
      All-set_again :
          (l : List A) (j : ℕ) (blank v : A) → P v → All P (set l j blank) → All P (set l j v)
      All-set_again [] j blank v p a = tt
      All-set_again (x ∷ l) zero blank v p a = (p, a.1)
      All-set_again (x ∷ l) (suc j) blank v p a = (a.0, All-set_again l j blank v p a.1)
  All-set-set (x ∷ l) (suc i) zero blank v p b a = (p, All-set l i blank b a.1)
  All-set-set (x ∷ l) (suc i) (suc j) blank v p b a = (a.0, All-set-set l i j blank v p b a.1)

module _ {M : Type 0} where
  unfoldable pub run : World M → List (Event M) → World M
  unfolding step
  run w [] = w
  run w (e ∷ es) = run (step w e) es

  -- No variable holds the envelope `p`, and it is not revoked.
  record IsLost (p : ℕ) (payload : M) (w : World M) : Type 0 where
    pub unheld : All (λ x. x ≢ some p) w.ids
    pub unrevoked : get_elem? w.envelopes p ≡ some (record { revoked = false; payload = payload })

  get_elem?-below :
      (l : List (Envelope M)) (p : ℕ) (e : Envelope M) → get_elem? l p ≡ some e → p < length l
  get_elem?-below [] p e h = cc
  get_elem?-below (x ∷ l) zero e h = omega arith
  get_elem?-below (x ∷ l) (suc p) e h = omega (arith, get_elem?-below l p e h)

  held_by-unheld : (p i : ℕ) (w : World M) → All (λ x. x ≢ some p) w.ids → held_by i w ≢ some p
  held_by-unheld p i w a h = elim (Option-cases (get_elem? w.ids i)) [
    | inl g ↦ ground (arith, g, h)
    | inr (x, g) ↦ All-at (λ x. x ≢ some p) w.ids i x g a (ground (arith, g, h))
  ]

  step-IsLost :
      (p : ℕ) (payload : M) (w : World M) (e : Event M)
      → IsLost p payload w
      → IsLost p payload (step w e)
  unfolding step make_envelope_and_deliver move revoke
  step-IsLost p payload w (accesses q) v = v
  step-IsLost p payload w (moves i j) v = record {
    unheld =
        All-set (λ x. x ≢ some p) (set w.ids i none) j (held_by i w) (held_by-unheld p i w v.unheld)
          (All-set (λ x. x ≢ some p) w.ids i none (λ h. cc) v.unheld);
    unrevoked = v.unrevoked;
  }
  step-IsLost p payload w (sends m i) v = record {
    unheld =
        All-set (λ x. x ≢ some p) w.ids i (some (length w.envelopes))
          (λ h. ground (arith, get_elem?-below w.envelopes p _ v.unrevoked, h)) v.unheld;
    unrevoked = get_elem?-append w.envelopes _ p _ v.unrevoked;
  }
  step-IsLost p payload w (revokes i) v = elim (Option-cases (held_by i w)) [
    | inl g ↦ rw (g, revoke) v
    | inr (q, g) ↦
        rw (g, revoke)
          (record {
            unheld = All-set (λ x. x ≢ some p) w.ids i none (λ h. cc) v.unheld;
            unrevoked = ground (
              arith,
              revoke-lookup q p (record w { ids = set w.ids i none }),
              v.unrevoked,
              λ (e : q ≡ p). held_by-unheld p i w v.unheld (g ∙ ap some e),
            );
          })
  ]

  run-IsLost :
      (p : ℕ) (payload : M) (w : World M) (es : List (Event M))
      → IsLost p payload w
      → IsLost p payload (run w es)
  unfolding run
  run-IsLost p payload w [] v = v
  run-IsLost p payload w (e ∷ es) v =
      run-IsLost p payload (step w e) es (step-IsLost p payload w e v)

  -- If the only `delivery_id_t` that holds a message which is not revoked is assigned the value of another
  -- one, then the message is not revoked, and whatever is sent, revoked and moved afterwards, its handlers
  -- still get it.
  pub assigned_over :
      (p source to : ℕ) (payload : M) (w : World M) (es : List (Event M))
      → get_elem? w.envelopes p ≡ some (record { revoked = false; payload = payload })
      → All (λ x. x ≢ some p) (set w.ids to none)
      → held_by source w ≢ some p
      → access_hook p (run (move source to w) es) ≡ some payload
  unfolding move access_hook
  assigned_over p source to payload w es there only other =
      let lost = run-IsLost p payload (move source to w) es (record {
        unheld =
            All-set-set (λ x. x ≢ some p) w.ids source to none (held_by source w) other (λ h. cc)
              only;
        unrevoked = there;
      }) in
      ground (arith, lost.unrevoked)
