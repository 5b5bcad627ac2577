-- ===== src/Std/Map/Keys.antt =====
-- A predicate on every key of a map, and what keeps it.
use so5extra.Prelude.{ℕ, ◌<◌, nat_ord, Bool-cases, inl, inr, List, [], ◌∷◌, arith, Ord}
use so5extra.Std.Map.{IsSorted, emplace, modify, erase}

module _ {ℓ κ ρ} {K : Type ℓ} {V : Type κ} (P : K → Type ρ) where
  abbrev pub AllKeys : List (K × V) → Type ρ
  AllKeys [] = Unit
  AllKeys ((j, w) ∷ m) = P j × AllKeys m

module _ {ℓ κ ρ} {K : Type ℓ} {V : Type κ} ⦃o : Ord K⦄ (P : K → Type ρ) where
  pub emplace-AllKeys :
      (k : K) (v : V) (m : List (K × V)) → AllKeys P m → P k → AllKeys P (emplace k v m)
  unfolding emplace
  emplace-AllKeys k v [] a p = (p, tt)
  emplace-AllKeys k v ((j, w) ∷ m) a p = elim (Bool-cases (o.lt j k)) [
    | inl h ↦ rw h (a.0, emplace-AllKeys k v m a.1 p)
    | inr h ↦ elim (Bool-cases (o.lt k j)) [ inl g ↦ rw (h, g) (p, a) | inr g ↦ rw (h, g) a ]
  ]

  pub modify-AllKeys :
      (k : K) (f : V → V) (m : List (K × V)) → AllKeys P m → AllKeys P (modify k f m)
  unfolding modify
  modify-AllKeys k f [] a = tt
  modify-AllKeys k f ((j, w) ∷ m) a = elim (Bool-cases (o.lt j k)) [
    | inl h ↦ rw h (a.0, modify-AllKeys k f m a.1)
    | inr h ↦ elim (Bool-cases (o.lt k j)) [ inl g ↦ rw (h, g) a | inr g ↦ rw (h, g) a ]
  ]

  pub erase-AllKeys : (k : K) (m : List (K × V)) → AllKeys P m → AllKeys P (erase k m)
  unfolding erase
  erase-AllKeys k [] a = tt
  erase-AllKeys k ((j, w) ∷ m) a = elim (Bool-cases (o.lt j k)) [
    | inl h ↦ rw h (a.0, erase-AllKeys k m a.1)
    | inr h ↦ elim (Bool-cases (o.lt k j)) [ inl g ↦ rw (h, g) a | inr g ↦ rw (h, g) a.1 ]
  ]

module _ {ℓ κ ρ σ} {K : Type ℓ} {V : Type κ} {P : K → Type ρ} {Q : K → Type σ}
    (f : (k : K) → P k → Q k) where
  pub AllKeys-mono : (m : List (K × V)) → AllKeys P m → AllKeys Q m
  AllKeys-mono [] a = tt
  AllKeys-mono ((j, w) ∷ m) a = (f j a.0, AllKeys-mono m a.1)

module _ {κ} {V : Type κ} where
  pub IsSorted-later :
      (j : ℕ) (w : V) (m : List (ℕ × V)) → IsSorted ((j, w) ∷ m) → AllKeys (λ q. j < q) m
  IsSorted-later j w [] s = tt
  IsSorted-later j w ((i, v) ∷ m) (above, s) =
      let h : j < i = ground arith in
      (h, AllKeys-mono (λ q (p : i < q). omega arith) m (IsSorted-later i v m s))
