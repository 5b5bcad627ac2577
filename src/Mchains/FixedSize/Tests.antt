-- ===== src/Mchains/FixedSize/Tests.antt =====
-- A run of the ring round the end of its array, and its theorem at that run.
use so5extra.Prelude.{true, ℕ, ◌≡◌, refl, List, [], ◌∷◌, arith}
use so5extra.Mchains.FixedSize.{new_queue, is_full, is_empty, front, pop_front, push_back}
use so5extra.Mchains.FixedSize.Fifo.{
  Op, pushes, asks_front, pops, asks_full, asks_empty, refused, accepted, shown, answered, ring_run,
  fifo_run, new_queue-refines,
}

abbrev ops : List (Op ℕ)
ops =
    pops
    ∷ pushes 1
    ∷ pushes 2
    ∷ asks_full
    ∷ pushes 3
    ∷ asks_front
    ∷ pops
    ∷ pushes 4
    ∷ pops
    ∷ asks_front
    ∷ pops
    ∷ asks_empty
    ∷ pops
    ∷ []

ring :
    ring_run 2 0 (new_queue 2 0) ops
    ≡ refused
      ∷ accepted
      ∷ accepted
      ∷ answered true
      ∷ refused
      ∷ shown 1
      ∷ accepted
      ∷ accepted
      ∷ accepted
      ∷ shown 4
      ∷ accepted
      ∷ answered true
      ∷ refused
      ∷ []
unfolding ring_run new_queue is_full is_empty front pop_front push_back
ring = refl

new_queue-refines_example : ring_run 2 0 (new_queue 2 0) ops ≡ fifo_run 2 0 [] ops
new_queue-refines_example = new_queue-refines 2 0 ops (omega arith)
