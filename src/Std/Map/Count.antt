-- ===== src/Std/Map/Count.antt =====
-- The number of values of a map that pass a test.
use so5extra.Prelude.{ℕ, ◌+◌, ◌≡◌, Bool, true, false, none, some, List, [], ◌∷◌, arith, Ord}
use so5extra.Std.Map.{find, emplace, modify, erase}

abbrev pub bit : Bool → ℕ
bit true = 1
bit false = 0

module _ {ℓ κ} {K : Type ℓ} {V : Type κ} ⦃o : Ord K⦄ (p : V → Bool) where
  unfoldable pub count_values : List (K × V) → ℕ
  count_values [] = 0
  count_values ((k, v) ∷ m) = bit (p v) + count_values m

  pub count-emplace :
      (k : K) (v : V) (m : List (K × V))
      → find k m ≡ none
      → count_values (emplace k v m) ≡ count_values m + bit (p v)
  unfolding count_values find emplace
  count-emplace k v [] h = omega arith
  count-emplace k v ((j, w) ∷ m) h = ground (arith, count-emplace k v m)

  pub count-modify :
      (k : K) (f : V → V) (m : List (K × V)) (w : V)
      → find k m ≡ some w
      → count_values (modify k f m) + bit (p w) ≡ count_values m + bit (p (f w))
  unfolding count_values find modify
  count-modify k f [] w h = cc
  count-modify k f ((j, x) ∷ m) w h = ground (arith, count-modify k f m w)

  pub count-erase :
      (k : K) (m : List (K × V)) (w : V)
      → find k m ≡ some w
      → count_values (erase k m) + bit (p w) ≡ count_values m
  unfolding count_values find erase
  count-erase k [] w h = cc
  count-erase k ((j, x) ∷ m) w h = ground (arith, count-erase k m w)
