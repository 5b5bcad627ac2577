-- ===== src/Mboxes/RoundRobin/Subscribers.antt =====
-- The subscribers of one message type: no sink stands twice, and the index is in range.
use so5extra.Prelude.{
  ℕ, zero, suc, ◌<◌, ◌≡◌, subst, Bool, inl, inr, true, false, none, some, List, [], ◌∷◌, ◌++◌,
  arith, Ord, length, length-append, All, erase_at, Option-cases,
}
use so5extra.Mboxes.RoundRobin.{
  Container, empty_container, find_if, emplace_back, empty, ensure_valid_current_subscriber_index,
  switch_current_subscriber, add_if_new, erase_if_found,
}

found_first {ℓ} :
    {A : Type ℓ} (p : A → Bool) (x : A) (xs : List A) → find_if p (x ∷ xs) ≡ some 0 → p x ≡ true
unfolding find_if
found_first p x xs h = ground arith

module _ {S : Type 0} ⦃o : Ord S⦄ where
  abbrev pub Without : S → List S → Type 0
  Without s xs = All (λ x. o.eqb x s ≡ false) xs

  abbrev pub Distinct : List S → Type 0
  Distinct [] = Unit
  Distinct (x ∷ xs) = Without x xs × Distinct xs

  eqb_comm : (a b : S) → o.eqb a b ≡ false → o.eqb b a ≡ false
  eqb_comm a b h = ground (arith, o.eqb_iff a b, o.eqb_iff b a)

  Without-find_if : (s : S) (xs : List S) → find_if (λ x. o.eqb x s) xs ≡ none → Without s xs
  unfolding find_if
  Without-find_if s [] h = tt
  Without-find_if s (x ∷ xs) h = ground (arith, Without-find_if s xs)

  pub Without-append :
      (s a : S) (xs : List S) → Without s xs → o.eqb a s ≡ false → Without s (xs ++ a ∷ [])
  Without-append s a [] w h = (h, tt)
  Without-append s a (x ∷ xs) w h = (w.0, Without-append s a xs w.1 h)

  Distinct-append : (a : S) (xs : List S) → Distinct xs → Without a xs → Distinct (xs ++ a ∷ [])
  Distinct-append a [] d w = (tt, tt)
  Distinct-append a (x ∷ xs) d w =
      (Without-append x a xs d.0 (eqb_comm x a w.0), Distinct-append a xs d.1 w.1)

  pub Without-erase_at : (s : S) (xs : List S) (i : ℕ) → Without s xs → Without s (erase_at xs i)
  Without-erase_at s [] i w = tt
  Without-erase_at s (x ∷ xs) zero w = w.1
  Without-erase_at s (x ∷ xs) (suc i) w = (w.0, Without-erase_at s xs i w.1)

  Distinct-erase_at : (xs : List S) (i : ℕ) → Distinct xs → Distinct (erase_at xs i)
  Distinct-erase_at [] i d = tt
  Distinct-erase_at (x ∷ xs) zero d = d.1
  Distinct-erase_at (x ∷ xs) (suc i) d = (Without-erase_at x xs i d.0, Distinct-erase_at xs i d.1)

  -- To erase what `find_if` found leaves none.
  erase_at-Without :
      (s : S) (xs : List S) (i : ℕ)
      → Distinct xs
      → find_if (λ x. o.eqb x s) xs ≡ some i
      → Without s (erase_at xs i)
  unfolding find_if
  erase_at-Without s [] i d h = tt
  erase_at-Without s (x ∷ xs) zero d h =
      subst (λ y. Without y xs) ((o.eqb_iff x s).0 (found_first (λ y. o.eqb y s) x xs h)) d.0
  erase_at-Without s (x ∷ xs) (suc i) d h = ground (arith, erase_at-Without s xs i d.1)

  pub record IsGood (c : Container S) : Type 0 where
    pub within : c.current_subscriber < length c.subscribers
    pub distinct : Distinct c.subscribers

  ensure_valid-IsGood :
      (c : Container S)
      → Distinct c.subscribers
      → empty (ensure_valid_current_subscriber_index c) ≡ false
      → IsGood (ensure_valid_current_subscriber_index c)
  unfolding ensure_valid_current_subscriber_index empty
  ensure_valid-IsGood c d e = ground arith

  pub switch-IsGood : (c : Container S) → IsGood c → IsGood (switch_current_subscriber c)
  unfolding switch_current_subscriber
  switch-IsGood c g = ground arith

  pub fresh-IsGood : (s : S) → IsGood (emplace_back s empty_container)
  unfolding emplace_back
  fresh-IsGood s = record { within = omega arith; distinct = (tt, tt) }

  pub add_if_new-IsGood : (s : S) (c : Container S) → IsGood c → IsGood (add_if_new s c)
  unfolding add_if_new
  add_if_new-IsGood s c g = elim (Option-cases (find_if (λ x. o.eqb x s) c.subscribers)) [
    | inl h ↦
        rw (h, add_if_new)
          (record {
            within = omega (arith, g.within, length-append c.subscribers (s ∷ []));
            distinct =
                Distinct-append s c.subscribers g.distinct (Without-find_if s c.subscribers h);
          })
    | inr (i, h) ↦ rw (h, add_if_new) g
  ]

  -- What is left after an erasure is good, if anything is left; and the sink is gone.
  pub erase_if_found-IsGood :
      (s : S) (c : Container S)
      → IsGood c
      → empty (erase_if_found s c) ≡ false
      → IsGood (erase_if_found s c)
  unfolding erase_if_found empty
  erase_if_found-IsGood s c g e = elim (Option-cases (find_if (λ x. o.eqb x s) c.subscribers)) [
    | inl h ↦ rw (h, erase_if_found) g
    | inr (i, h) ↦
        rw (h, erase_if_found)
          (ensure_valid-IsGood _ (Distinct-erase_at c.subscribers i g.distinct)
            (rw (h, erase_if_found) at e))
  ]

  pub erase_if_found-Without :
      (s : S) (c : Container S) → IsGood c → Without s (erase_if_found s c).subscribers
  unfolding erase_if_found
  erase_if_found-Without s c g = elim (Option-cases (find_if (λ x. o.eqb x s) c.subscribers)) [
    | inl h ↦ rw (h, erase_if_found) (Without-find_if s c.subscribers h)
    | inr (i, h) ↦ ground (arith, h, erase_at-Without s c.subscribers i g.distinct h)
  ]
