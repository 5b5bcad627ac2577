-- ===== src/AsyncOp/Subscriptions/Loops.antt =====
-- What a loop that makes subscriptions leaves, and one that destroys them.
use so5extra.Prelude.{
  ◌≡◌, inl, inr, true, false, List, [], ◌∷◌, ◌++◌, arith, All, sym, subst, ◌∙◌, ap,
}
use so5extra.So5.{Result-cases, ok}
use so5extra.AsyncOp.Subscriptions.{Subscriptions, IsSubscriptions, drop_each, create_each}

module _ {K O : Type 0} (s : Subscriptions K O) where
  abbrev pub AllHeld : List K → O → Type 0
  AllHeld ks o = All (λ k. s.holds k o ≡ true) ks

  abbrev pub NoneHeld : List K → O → Type 0
  NoneHeld ks o = All (λ k. s.holds k o ≡ false) ks

module _ {K O : Type 0} (s : Subscriptions K O) (law : IsSubscriptions s) where
  pub drop_keeps :
      (ks : List K) (q : K) (o : O) → s.holds q o ≡ false → s.holds q (drop_each s ks o) ≡ false
  unfolding drop_each
  drop_keeps [] q o h = h
  drop_keeps (k ∷ ks) q o h = drop_keeps ks q (s.destroy k o) (law.destroy_keeps k q o h)

  pub drop_keeps_all : (ks qs : List K) (o : O) → NoneHeld s qs o → NoneHeld s qs (drop_each s ks o)
  drop_keeps_all ks [] o h = tt
  drop_keeps_all ks (q ∷ qs) o h = (drop_keeps ks q o h.0, drop_keeps_all ks qs o h.1)

  pub drop_self : (ks : List K) (o : O) → NoneHeld s ks (drop_each s ks o)
  unfolding drop_each
  drop_self [] o = tt
  drop_self (k ∷ ks) o =
      (drop_keeps ks k (s.destroy k o) (law.destroy_self k o), drop_self ks (s.destroy k o))

  pub create_keeps_all :
      (made ks : List K) (q : K) (o : O)
      → s.holds q o ≡ true
      → (create_each s made ks o).1 ≡ ok tt
      → s.holds q (create_each s made ks o).0 ≡ true
  unfolding create_each
  create_keeps_all made [] q o h e = h
  create_keeps_all made (k ∷ ks) q o h e = elim (Result-cases (s.create k o)) [
    | inl (o', f) ↦
        ground
          (arith, f, e, create_keeps_all (made ++ k ∷ []) ks q o' (law.create_keeps k q o o' f h))
    | inr (err, f) ↦ ground (arith, f, e)
  ]

  pub each_keeps_held :
      (ks qs : List K) (o : O)
      → AllHeld s qs o
      → (create_each s [] ks o).1 ≡ ok tt
      → AllHeld s qs (create_each s [] ks o).0
  each_keeps_held ks [] o h e = tt
  each_keeps_held ks (q ∷ qs) o h e =
      (create_keeps_all [] ks q o h.0 e, each_keeps_held ks qs o h.1 e)

  pub create_keeps_held :
      (k : K) (qs : List K) (o o' : O) → s.create k o ≡ ok o' → AllHeld s qs o → AllHeld s qs o'
  create_keeps_held k [] o o' f h = tt
  create_keeps_held k (q ∷ qs) o o' f h =
      (law.create_keeps k q o o' f h.0, create_keeps_held k qs o o' f h.1)

  create-cons :
      (made : List K) (k : K) (ks : List K) (o o' : O)
      → s.create k o ≡ ok o'
      → create_each s made (k ∷ ks) o ≡ create_each s (made ++ k ∷ []) ks o'
  unfolding create_each
  create-cons made k ks o o' f = ground (arith, f)

  pub create_self :
      (made ks : List K) (o : O)
      → (create_each s made ks o).1 ≡ ok tt
      → AllHeld s ks (create_each s made ks o).0
  unfolding create_each
  create_self made [] o e = tt
  create_self made (k ∷ ks) o e = elim (Result-cases (s.create k o)) [
    | inl (o', f) ↦
        let same = create-cons made k ks o o' f in
        let e' = sym (ap (λ r. r.1) same) ∙ e in
        subst (λ r. AllHeld s (k ∷ ks) r.0) (sym same)
          (
            create_keeps_all (made ++ k ∷ []) ks k o' (law.create_self k o o' f) e',
            create_self (made ++ k ∷ []) ks o' e',
          )
    | inr (err, f) ↦ ground (arith, f, e)
  ]
