-- ===== src/Std/SortedVector.antt =====
-- A `std::vector` that its owner keeps sorted, and `std::lower_bound` in it: the first position
-- whose element is not below the key. `key` is what the elements are compared by.
use so5extra.Prelude.{
  ℕ, zero, suc, ◌≡◌, refl, Bool, true, false, Option, none, some, List, [], ◌∷◌, arith, Ord, inl,
  inr, Bool-cases, if◌then◌else◌, get_elem?, erase_at,
}

module _ {ℓ} {A : Type ℓ} where
  abbrev pub insert_at : List A → ℕ → A → List A
  insert_at [] i x = x ∷ []
  insert_at (y ∷ ys) zero x = x ∷ y ∷ ys
  insert_at (y ∷ ys) (suc i) x = y ∷ insert_at ys i x

module _ {ℓ κ} {A : Type ℓ} {K : Type κ} ⦃o : Ord K⦄ (key : A → K) where
  unfoldable pub lower_bound : K → List A → ℕ
  lower_bound k [] = 0
  lower_bound k (x ∷ xs) = let rest = lower_bound k xs in if o.lt (key x) k then suc rest else 0

  -- The element with the key, if `lower_bound` stops at one.
  unfoldable pub find_at : K → List A → Option A
  unfolding lower_bound
  find_at k xs = elim (get_elem? xs (lower_bound k xs)) [
    | none ↦ none
    | some x ↦ if o.eqb (key x) k then some x else none
  ]

  abbrev pub AllAbove : K → List A → Type κ
  AllAbove k [] = Unit
  AllAbove k (x ∷ xs) = (o.lt k (key x) ≡ true) × AllAbove k xs

  -- Sorted by strictly growing keys.
  abbrev pub IsStrict : List A → Type κ
  IsStrict [] = Unit
  IsStrict (x ∷ xs) = AllAbove (key x) xs × IsStrict xs

  abbrev pub has_key : K → List A → Bool
  has_key k [] = false
  has_key k (x ∷ xs) = if o.eqb (key x) k then true else has_key k xs

  pub AllAbove-mono : (i k : K) (xs : List A) → o.lt i k ≡ true → AllAbove k xs → AllAbove i xs
  AllAbove-mono i k [] h a = tt
  AllAbove-mono i k (x ∷ xs) h a = (o.lt_trans i k (key x) h a.0, AllAbove-mono i k xs h a.1)

  above-has_key : (k : K) (xs : List A) → AllAbove k xs → has_key k xs ≡ false
  above-has_key k [] a = refl
  above-has_key k (x ∷ xs) a =
      ground (arith, a.0, o.eqb_iff (key x) k, o.lt_irrefl k, above-has_key k xs a.1)

  has_key-below :
      (k : K) (x : A) (xs : List A)
      → AllAbove (key x) xs
      → o.lt k (key x) ≡ true
      → has_key k xs ≡ false
  has_key-below k x xs a h = above-has_key k xs (AllAbove-mono k (key x) xs h a)

  -- The search by bisection finds what a linear search would.
  unfoldable pub found : K → List A → Bool
  unfolding find_at
  found k xs = elim (find_at k xs) [ none ↦ false | some x ↦ true ]

  pub found-has_key : (k : K) (xs : List A) → IsStrict xs → found k xs ≡ has_key k xs
  unfolding found find_at lower_bound
  found-has_key k [] s = refl
  found-has_key k (x ∷ xs) s = ground (
    arith,
    found-has_key k xs s.1,
    o.eqb_iff (key x) k,
    o.lt_irrefl k,
    o.lt_total (key x) k,
    has_key-below k x xs s.0,
  )

  AllAbove-insert :
      (i : K) (a : A) (xs : List A) (n : ℕ)
      → o.lt i (key a) ≡ true
      → AllAbove i xs
      → AllAbove i (insert_at xs n a)
  AllAbove-insert i a [] n h v = (h, tt)
  AllAbove-insert i a (x ∷ xs) zero h v = (h, v)
  AllAbove-insert i a (x ∷ xs) (suc n) h v = (v.0, AllAbove-insert i a xs n h v.1)

  not_tail : (a x : A) (xs : List A) → has_key (key a) (x ∷ xs) ≡ false → has_key (key a) xs ≡ false
  not_tail a x xs fresh = ground (arith, fresh)

  above_rest :
      (a x : A) (xs : List A)
      → has_key (key a) (x ∷ xs) ≡ false
      → o.lt (key x) (key a) ≡ false
      → o.lt (key a) (key x) ≡ true
  above_rest a x xs fresh h =
      ground (arith, o.lt_total (key x) (key a), o.eqb_iff (key x) (key a), fresh)

  pub insert-IsStrict :
      (a : A) (xs : List A)
      → has_key (key a) xs ≡ false
      → IsStrict xs
      → IsStrict (insert_at xs (lower_bound (key a) xs) a)
  unfolding lower_bound
  insert-IsStrict a [] fresh s = (tt, tt)
  insert-IsStrict a (x ∷ xs) fresh s = elim (Bool-cases (o.lt (key x) (key a))) [
    | inl below ↦ rw below (
      AllAbove-insert (key x) a xs (lower_bound (key a) xs) below s.0,
      insert-IsStrict a xs (not_tail a x xs fresh) s.1,
    )
    | inr not_below ↦
        let h = above_rest a x xs fresh not_below in
        rw not_below ((h, AllAbove-mono (key a) (key x) xs h s.0), s)
  ]

  pub insert-has_key :
      (q : K) (a : A) (xs : List A)
      → has_key q (insert_at xs (lower_bound (key a) xs) a)
        ≡ (if o.eqb (key a) q then true else has_key q xs)
  unfolding lower_bound
  insert-has_key q a [] = refl
  insert-has_key q a (x ∷ xs) = ground (arith, insert-has_key q a xs)

  -- The element with the key is taken away, if `lower_bound` stops at one.
  unfoldable pub erase_key : K → List A → List A
  unfolding lower_bound found find_at
  erase_key k xs = if found k xs then erase_at xs (lower_bound k xs) else xs

  pub erase-cons :
      (k : K) (x : A) (xs : List A)
      → erase_key k (x ∷ xs)
        ≡ (if o.lt (key x) k then x ∷ erase_key k xs else if o.eqb (key x) k then xs else x ∷ xs)
  unfolding erase_key lower_bound found find_at
  erase-cons k x xs = ground arith

  AllAbove-erase : (i k : K) (xs : List A) → AllAbove i xs → AllAbove i (erase_key k xs)
  unfolding erase_key lower_bound found find_at
  AllAbove-erase i k [] v = tt
  AllAbove-erase i k (x ∷ xs) v = elim (Bool-cases (o.lt (key x) k)) [
    | inl below ↦ rw (erase-cons k x xs, below) (v.0, AllAbove-erase i k xs v.1)
    | inr not_below ↦ elim (Bool-cases (o.eqb (key x) k)) [
      | inl same ↦ rw (erase-cons k x xs, not_below, same) v.1
      | inr other ↦ rw (erase-cons k x xs, not_below, other) v
    ]
  ]

  pub erase-IsStrict : (k : K) (xs : List A) → IsStrict xs → IsStrict (erase_key k xs)
  unfolding erase_key lower_bound found find_at
  erase-IsStrict k [] s = tt
  erase-IsStrict k (x ∷ xs) s = elim (Bool-cases (o.lt (key x) k)) [
    | inl below ↦
        rw (erase-cons k x xs, below) (AllAbove-erase (key x) k xs s.0, erase-IsStrict k xs s.1)
    | inr not_below ↦ elim (Bool-cases (o.eqb (key x) k)) [
      | inl same ↦ rw (erase-cons k x xs, not_below, same) s.1
      | inr other ↦ rw (erase-cons k x xs, not_below, other) s
    ]
  ]

  pub erase-has_key :
      (k q : K) (xs : List A)
      → IsStrict xs
      → has_key q (erase_key k xs) ≡ (if o.eqb k q then false else has_key q xs)
  unfolding erase_key lower_bound found find_at
  erase-has_key k q [] s = ground arith
  erase-has_key k q (x ∷ xs) s = rw (erase-cons k x xs) (
      ground (
        arith,
        erase-has_key k q xs s.1,
        o.eqb_iff k q,
        o.eqb_iff (key x) q,
        o.eqb_iff (key x) k,
        o.lt_irrefl k,
        o.lt_total (key x) k,
        has_key-below k x xs s.0,
        above-has_key (key x) xs s.0,
      ))

  pub find_at-cons :
      (k : K) (x : A) (xs : List A)
      → find_at k (x ∷ xs)
        ≡ (if o.lt (key x) k then find_at k xs else if o.eqb (key x) k then some x else none)
  unfolding find_at lower_bound
  find_at-cons k x xs = ground arith
