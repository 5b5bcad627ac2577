-- ===== src/Disp.antt =====
-- dev/so_5_extra/disp: what the two dispatchers over Asio share. An atomic counter is a
-- `std::size_t`. `posted` are the demands that were posted to the `io_context` and that no thread has
-- begun to handle; Asio decides which of them comes next.
pub mod AsioThreadPool
pub mod AsioOneThread
use so5extra.Prelude.{
  ℕ, zero, suc, ◌+◌, ◌-◌, ◌%◌, ◌^◌, ◌<◌, ◌≡◌, ap, ◌∙◌, get_elem?, erase_at, length, Option, none,
  some, List, [], ◌∷◌, arith,
}
use so5extra.So5.{Error}
use native.Mathlib.Nat.{mod-add-mod, add-mod_right}

abbrev pub size_mod : ℕ
size_mod = 2 ^ 64

pub record World (D : Type 0) : Type 0 where
  pub agents_bound : ℕ
  pub demands_counter : ℕ
  pub posted : List D

abbrev pub new_world : {D : Type 0} → World D
new_world = record { agents_bound = 0; demands_counter = 0; posted = [] }

-- The calls of a binder and of the threads; `asio::post` throws the exception of `pushes`, if there is
-- one. `handles i` is the beginning of the demand number `i` of the posted ones.
pub data Event (D : Type 0) : Type 0 where
  binds unbinds : Event D
  pushes : D → Option Error → Event D
  handles : ℕ → Event D

-- What a thread does with a demand: `call_handler`, and the calls of the collector of statistics.
pub data Work (D : Type 0) : Type 0 where
  work_started work_finished : Work D
  call_handler : D → Work D

unfoldable pub increment : ℕ → ℕ
increment c = (c + 1) % size_mod

unfoldable pub decrement : ℕ → ℕ
decrement c = (c + (size_mod - 1)) % size_mod

pub increment-at : (c n : ℕ) → c ≡ n % size_mod → increment c ≡ (n + 1) % size_mod
unfolding increment
increment-at c n h = rw h (mod-add-mod n size_mod 1)

pub decrement-at : (c n k : ℕ) → c ≡ n % size_mod → n ≡ k + 1 → decrement c ≡ k % size_mod
unfolding decrement
decrement-at c n k h e =
    let moved : n + (size_mod - 1) ≡ k + size_mod = omega (arith, e) in
    rw h (
      mod-add-mod n size_mod (size_mod - 1)
      ∙ ap (λ x. x % size_mod) moved
      ∙ add-mod_right k size_mod)

pub length-erase_at :
    {D : Type 0} (l : List D) (i : ℕ) (d : D)
    → get_elem? l i ≡ some d
    → length l ≡ length (erase_at l i) + 1
length-erase_at [] i d h = ground (arith, h)
length-erase_at (x ∷ l) zero d h = omega arith
length-erase_at (x ∷ l) (suc i) d h = omega (arith, length-erase_at l i d h)
