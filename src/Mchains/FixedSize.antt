-- ===== src/Mchains/FixedSize.antt =====
-- dev/so_5_extra/mchains/fixed_size.hpp: `details::demand_queue_t`, a ring in an array of `Size`
-- demands. `ensure_queue_not_empty` and `ensure_queue_not_full` are SObjectizer's: they throw if
-- the queue is empty, or full, and a call that throws is `none`. `blank` is `demand_t{}`.
pub mod Fifo
mod Tests
use so5extra.Prelude.{
  ℕ, zero, suc, ◌+◌, ◌-◌, ◌%◌, Bool, true, false, Option, none, some, List, ◌==◌, get_elem?, set,
  replicate, if◌then◌else◌,
}

pub record DemandQueue (D : Type 0) : Type 0 where
  pub storage : List D
  pub head : ℕ
  pub size : ℕ

module _ {D : Type 0} (Size : ℕ) (blank : D) where
  unfoldable pub new_queue : DemandQueue D
  new_queue = record { storage = replicate Size blank; head = 0; size = 0 }

  unfoldable pub is_full : DemandQueue D → Bool
  is_full q = Size == q.size

  unfoldable pub is_empty : DemandQueue D → Bool
  is_empty q = 0 == q.size

  unfoldable pub front : DemandQueue D → Option D
  unfolding is_empty
  front q = if is_empty q then none else get_elem? q.storage q.head

  unfoldable pub pop_front : DemandQueue D → Option (DemandQueue D)
  unfolding is_empty
  pop_front q =
      if is_empty q
      then none
      else some (record {
        storage = set q.storage q.head blank;
        head = (q.head + 1) % Size;
        size = q.size - 1;
      })

  unfoldable pub push_back : D → DemandQueue D → Option (DemandQueue D)
  unfolding is_full
  push_back demand q =
      let index = (q.head + q.size) % Size in
      if is_full q
      then none
      else some (record q { storage = set q.storage index demand; size = q.size + 1 })
