-- ===== src/Disp/AsioOneThread.antt =====
-- dev/so_5_extra/disp/asio_one_thread/pub.hpp: the dispatcher as a binder, and its work thread as an
-- event queue.
pub mod Reports
mod Tests
use so5extra.Prelude.{
  ℕ, Bool, Option, none, some, List, [], ◌∷◌, ◌++◌, get_elem?, erase_at, if◌then◌else◌,
}
use so5extra.So5.{Error, Result, ok, throw, Noexcept, noexcept_call}
use so5extra.Disp.{World, Work, work_started, work_finished, call_handler, increment, decrement}

module _ {D : Type 0} where
  unfoldable pub bind : World D → World D
  unfolding increment
  bind w = record w { agents_bound = increment w.agents_bound }

  unfoldable pub unbind : World D → World D
  unfolding decrement
  unbind w = record w { agents_bound = decrement w.agents_bound }

  -- The counter is increased before `asio::post`, and decreased again if that throws.
  unfoldable pub push : D → Option Error → World D → World D × Result (Unit {0})
  unfolding increment decrement
  push d failure w =
      let counted = record w { demands_counter = increment w.demands_counter } in
      elim failure [
        | some e ↦ (record counted { demands_counter = decrement counted.demands_counter }, throw e)
        | none ↦ (record counted { posted = w.posted ++ d ∷ [] }, ok tt)
      ]

  pub push_evt_start : D → Option Error → World D → World D × Result (Unit {0})
  unfolding push
  push_evt_start d failure w = push d failure w

  pub push_evt_finish : D → Option Error → World D → World D × Noexcept (Unit {0})
  unfolding push
  push_evt_finish d failure w = let (w', r) = push d failure w in (w', noexcept_call r)

  -- `handle_demand`, for the demand number `i`, with or without activity tracking.
  unfoldable pub handle_demand : Bool → ℕ → World D → World D × List (Work D)
  unfolding decrement
  handle_demand activity_tracking i w = elim (get_elem? w.posted i) [
    | none ↦ (w, [])
    | some d ↦ (
      record w { demands_counter = decrement w.demands_counter; posted = erase_at w.posted i },
      if activity_tracking
          then work_started ∷ call_handler d ∷ work_finished ∷ []
          else call_handler d ∷ [],
    )
  ]

  -- The numbers of agents and of demands that `disp_data_source_t` sends.
  unfoldable pub distribute : World D → ℕ × ℕ
  distribute w = (w.agents_bound, w.demands_counter)
