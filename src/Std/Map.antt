-- ===== src/Std/Map.antt =====
-- `std::map`: the entries in the order of their keys.
pub mod Every
pub mod Count
pub mod Keys
use so5extra.Prelude.{
  ◌≡◌, refl, true, false, Option, none, some, List, [], ◌∷◌, arith, Ord, Bool-cases, inl, inr,
  if◌then◌else◌,
}

lt_asymm {ℓ} : {K : Type ℓ} ⦃o : Ord K⦄ (a b : K) → o.lt a b ≡ true → o.lt b a ≡ false
lt_asymm ⦃o⦄ a b h = ground (arith, o.lt_trans a b a, o.lt_irrefl a)

module _ {ℓ κ} {K : Type ℓ} {V : Type κ} ⦃o : Ord K⦄ where
  unfoldable pub find : K → List (K × V) → Option V
  find k [] = none
  find k ((j, v) ∷ m) = if o.lt j k then find k m else if o.lt k j then none else some v

  -- An entry that is there stays as it is.
  unfoldable pub emplace : K → V → List (K × V) → List (K × V)
  emplace k v [] = (k, v) ∷ []
  emplace k v ((j, w) ∷ m) =
      if o.lt j k
      then (j, w) ∷ emplace k v m
      else if o.lt k j
      then (k, v) ∷ (j, w) ∷ m
      else (j, w) ∷ m

  -- A write through the iterator that `find` returned.
  unfoldable pub modify : K → (V → V) → List (K × V) → List (K × V)
  modify k f [] = []
  modify k f ((j, w) ∷ m) =
      if o.lt j k then (j, w) ∷ modify k f m else if o.lt k j then (j, w) ∷ m else (j, f w) ∷ m

  unfoldable pub erase : K → List (K × V) → List (K × V)
  erase k [] = []
  erase k ((j, w) ∷ m) = if o.lt j k then (j, w) ∷ erase k m else if o.lt k j then (j, w) ∷ m else m

  -- The keys rise along the list.
  abbrev pub IsAbove : K → List (K × V) → Type 0
  IsAbove k [] = Unit
  IsAbove k ((j, w) ∷ m) = o.lt k j ≡ true

  abbrev pub IsSorted : List (K × V) → Type 0
  IsSorted [] = Unit
  IsSorted ((k, v) ∷ m) = IsAbove k m × IsSorted m

  pub find-emplace :
      (k q : K) (v : V) (m : List (K × V))
      → find q (emplace k v m)
        ≡ (if o.eqb k q then (elim (find k m) [ none ↦ some v | some w ↦ some w ]) else find q m)
  unfolding find emplace
  find-emplace k q v [] = ground (arith, o.eqb_iff k q, o.lt_irrefl k, o.lt_total k q)
  find-emplace k q v ((j, w) ∷ m) = ground (
    arith,
    o.eqb_iff k q,
    o.lt_irrefl k,
    o.lt_irrefl j,
    o.lt_total k q,
    o.lt_total q j,
    o.lt_total k j,
    o.lt_trans k j q,
    o.lt_trans q k j,
    o.lt_trans j k q,
    o.lt_trans k q j,
    find-emplace k q v m,
  )

  pub find-modify :
      (k q : K) (f : V → V) (m : List (K × V))
      → find q (modify k f m)
        ≡ (if o.eqb k q then (elim (find k m) [ none ↦ none | some w ↦ some (f w) ]) else find q m)
  unfolding find modify
  find-modify k q f [] = ground arith
  find-modify k q f ((j, w) ∷ m) = ground (
    arith,
    o.eqb_iff k q,
    o.lt_total k q,
    o.lt_total q j,
    o.lt_total k j,
    o.lt_irrefl j,
    find-modify k q f m,
  )

  pub find-modify_self :
      (k : K) (f : V → V) (m : List (K × V)) (w : V)
      → find k m ≡ some w
      → find k (modify k f m) ≡ some (f w)
  find-modify_self k f m w h = ground (arith, h, find-modify k k f m, o.eqb_iff k k)

  -- A key below the first one is not there.
  find_above : (k : K) (m : List (K × V)) → IsAbove k m → find k m ≡ none
  unfolding find
  find_above k [] a = refl
  find_above k ((j, w) ∷ m) a = ground (arith, lt_asymm k j)

  pub IsAbove-mono : (i k : K) (m : List (K × V)) → o.lt i k ≡ true → IsAbove k m → IsAbove i m
  IsAbove-mono i k [] h a = tt
  IsAbove-mono i k ((j, w) ∷ m) h a = o.lt_trans i k j h a

  pub find-erase :
      (k q : K) (m : List (K × V))
      → IsSorted m
      → find q (erase k m) ≡ (if o.eqb k q then none else find q m)
  unfolding find erase
  find-erase k q [] s = ground arith
  find-erase k q ((j, w) ∷ m) s = ground (
    arith,
    o.eqb_iff k q,
    o.lt_total k q,
    o.lt_total q j,
    o.lt_total k j,
    o.lt_irrefl j,
    find_above j m s.0,
    find_above q m,
    IsAbove-mono q j m,
    find-erase k q m s.1,
  )

  IsAbove-emplace :
      (i k : K) (v : V) (m : List (K × V))
      → o.lt i k ≡ true
      → IsAbove i m
      → IsAbove i (emplace k v m)
  unfolding emplace
  IsAbove-emplace i k v [] h a = h
  IsAbove-emplace i k v ((j, w) ∷ m) h a = ground arith

  pub emplace-IsSorted : (k : K) (v : V) (m : List (K × V)) → IsSorted m → IsSorted (emplace k v m)
  unfolding emplace
  emplace-IsSorted k v [] s = (tt, tt)
  emplace-IsSorted k v ((j, w) ∷ m) s = elim (Bool-cases (o.lt j k)) [
    | inl h ↦ rw h (IsAbove-emplace j k v m h s.0, emplace-IsSorted k v m s.1)
    | inr h ↦ elim (Bool-cases (o.lt k j)) [ inl g ↦ rw (h, g) (g, s) | inr g ↦ rw (h, g) s ]
  ]

  IsAbove-modify : (i k : K) (f : V → V) (m : List (K × V)) → IsAbove i m → IsAbove i (modify k f m)
  unfolding modify
  IsAbove-modify i k f [] a = tt
  IsAbove-modify i k f ((j, w) ∷ m) a = ground arith

  pub modify-IsSorted :
      (k : K) (f : V → V) (m : List (K × V)) → IsSorted m → IsSorted (modify k f m)
  unfolding modify
  modify-IsSorted k f [] s = tt
  modify-IsSorted k f ((j, w) ∷ m) s = elim (Bool-cases (o.lt j k)) [
    | inl h ↦ rw h (IsAbove-modify j k f m s.0, modify-IsSorted k f m s.1)
    | inr h ↦ elim (Bool-cases (o.lt k j)) [ inl g ↦ rw (h, g) s | inr g ↦ rw (h, g) s ]
  ]

  IsAbove-erase : (i k : K) (m : List (K × V)) → IsSorted m → IsAbove i m → IsAbove i (erase k m)
  unfolding erase
  IsAbove-erase i k [] s a = tt
  IsAbove-erase i k ((j, w) ∷ m) s a = ground (arith, IsAbove-mono i j m)

  pub erase-IsSorted : (k : K) (m : List (K × V)) → IsSorted m → IsSorted (erase k m)
  unfolding erase
  erase-IsSorted k [] s = tt
  erase-IsSorted k ((j, w) ∷ m) s = elim (Bool-cases (o.lt j k)) [
    | inl h ↦ rw h (IsAbove-erase j k m s.1 s.0, erase-IsSorted k m s.1)
    | inr h ↦ elim (Bool-cases (o.lt k j)) [ inl g ↦ rw (h, g) s | inr g ↦ rw (h, g) s.1 ]
  ]
