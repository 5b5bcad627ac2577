-- ===== src/Mboxes/RoundRobin/Rotation.antt =====
-- The subscribers in the order in which the next messages go to them: a queue that turns.
use mathlib.Core.List.{append_assoc, append-nil}
use so5extra.Prelude.{
  suc, ◌<◌, ◌≡◌, sym, ap, ◌∙◌, some, List, [], ◌∷◌, ◌++◌, arith, length, get_elem?, take, drop,
  dec_lt, split_at, drop_all, take_all,
}
use so5extra.Mboxes.RoundRobin.{Container, current, switch_current_subscriber}

module _ {S : Type 0} where
  abbrev pub turn_order : Container S → List S
  turn_order c = drop c.current_subscriber c.subscribers ++ take c.current_subscriber c.subscribers

  switch_next :
      (c : Container S)
      → suc c.current_subscriber < length c.subscribers
      → switch_current_subscriber c ≡ record c { current_subscriber = suc c.current_subscriber }
  unfolding switch_current_subscriber
  switch_next c h = ground arith

  switch_wrap :
      (c : Container S)
      → suc c.current_subscriber ≡ length c.subscribers
      → switch_current_subscriber c ≡ record c { current_subscriber = 0 }
  unfolding switch_current_subscriber
  switch_wrap c h = ground arith

  -- The current subscriber is the first of the order, and a switch moves it to the end.
  pub switch-turns :
      (c : Container S)
      → c.current_subscriber < length c.subscribers
      → (x : S) × (q : List S) × (current c ≡ some x)
        × (turn_order c ≡ x ∷ q)
        × (turn_order (switch_current_subscriber c) ≡ q ++ x ∷ [])
  unfolding current
  switch-turns c h = (x, drop (suc i) xs ++ take i xs, at, ap (λ l. l ++ take i xs) d, last)
    where
      open c use {subscribers as xs, current_subscriber as i}

      parts :
          (x : S) × (get_elem? xs i ≡ some x)
          × (drop i xs ≡ x ∷ drop (suc i) xs)
          × (take (suc i) xs ≡ take i xs ++ x ∷ [])
      parts = split_at xs i h

      x : S
      x = parts.0

      at : get_elem? xs i ≡ some x
      at = parts.1

      d : drop i xs ≡ x ∷ drop (suc i) xs
      d = parts.2

      t : take (suc i) xs ≡ take i xs ++ x ∷ []
      t = parts.3

      last : turn_order (switch_current_subscriber c) ≡ (drop (suc i) xs ++ take i xs) ++ x ∷ []
      last = elim (dec_lt (suc i) (length xs)) [
        | yes p ↦
            rw (switch_next c p)
              (ap (◌++◌ (drop (suc i) xs)) t ∙ sym (append_assoc (drop (suc i) xs) (take i xs) _))
        | no p ↦
            let e : suc i ≡ length xs = omega arith in
            let d' : drop (suc i) xs ≡ [] = ap (λ n. drop n xs) e ∙ drop_all xs in
            let t' : take (suc i) xs ≡ xs = ap (λ n. take n xs) e ∙ take_all xs in
            rw (switch_wrap c e, append-nil xs, d') (sym t' ∙ t)
      ]
