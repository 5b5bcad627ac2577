-- ===== src/Std/Map/Every.antt =====
-- A predicate on every value of a map, and what keeps it.
use so5extra.Prelude.{◌≡◌, some, List, arith, Ord, Option-cases, inl, inr}
use so5extra.Std.Map.{
  find, emplace, modify, erase, IsSorted, find-emplace, find-modify, find-erase, modify-IsSorted,
}

module _ {ℓ κ ρ} {K : Type ℓ} {V : Type κ} ⦃o : Ord K⦄ (P : V → Type ρ) where
  abbrev pub Every : List (K × V) → Type (ℓ ⊔ κ ⊔ ρ)
  Every m = (k : K) (v : V) → find k m ≡ some v → P v

  pub emplace-Every : (k : K) (v : V) (m : List (K × V)) → Every m → P v → Every (emplace k v m)
  emplace-Every k v m e p q w h = ground (arith, find-emplace k q v m, e q w, e k w, o.eqb_iff k q)

  pub modify-Every :
      (k : K) (f : V → V) (m : List (K × V))
      → Every m
      → ((w : V) → find k m ≡ some w → P (f w))
      → Every (modify k f m)
  modify-Every k f m e p q w h = elim (Option-cases (find k m)) [
    | inl g ↦ ground (arith, find-modify k q f m, e q w)
    | inr (v, g) ↦ ground (arith, find-modify k q f m, e q w, p v)
  ]

  pub erase-modify-Every :
      (k : K) (f : V → V) (m : List (K × V)) → IsSorted m → Every m → Every (erase k (modify k f m))
  erase-modify-Every k f m s e q w h =
      ground
        (arith, find-erase k q (modify k f m) (modify-IsSorted k f m s), find-modify k q f m, e q w)
