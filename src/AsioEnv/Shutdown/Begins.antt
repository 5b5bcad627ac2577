-- ===== src/AsioEnv/Shutdown/Begins.antt =====
-- How often the beginning of the shutdown is posted.
use so5extra.Prelude.{
  ℕ, zero, suc, ◌+◌, ◌≡◌, refl, ap, some, List, [], ◌∷◌, ◌++◌, arith, get_elem?, erase_at,
}
use so5extra.AsioEnv.Shutdown.{Task, begin_shutdown, finish_coop}

module _ {C : Type 0} where
  abbrev pub begins : List (Task C) → ℕ
  begins [] = 0
  begins (begin_shutdown ∷ l) = begins l + 1
  begins (finish_coop c ∷ l) = begins l

  pub begins-append : (l k : List (Task C)) → begins (l ++ k) ≡ begins l + begins k
  begins-append [] k = omega arith
  begins-append (begin_shutdown ∷ l) k = omega (arith, begins-append l k)
  begins-append (finish_coop c ∷ l) k = begins-append l k

  pub begins-begin :
      (l : List (Task C)) (i : ℕ)
      → get_elem? l i ≡ some begin_shutdown
      → begins l ≡ begins (erase_at l i) + 1
  begins-begin [] i h = ground (arith, h)
  begins-begin (begin_shutdown ∷ l) zero h = refl
  begins-begin (finish_coop c ∷ l) zero h = ground (arith, h)
  begins-begin (begin_shutdown ∷ l) (suc i) h = omega (arith, begins-begin l i h)
  begins-begin (finish_coop c ∷ l) (suc i) h = begins-begin l i h

  pub begins-finish :
      (l : List (Task C)) (i : ℕ) (c : C)
      → get_elem? l i ≡ some (finish_coop c)
      → begins l ≡ begins (erase_at l i)
  begins-finish [] i c h = refl
  begins-finish (begin_shutdown ∷ l) zero c h = ground (arith, h)
  begins-finish (finish_coop d ∷ l) zero c h = refl
  begins-finish (begin_shutdown ∷ l) (suc i) c h = ap (λ n. n + 1) (begins-finish l i c h)
  begins-finish (finish_coop d ∷ l) (suc i) c h = begins-finish l i c h
