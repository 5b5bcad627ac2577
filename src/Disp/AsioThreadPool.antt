-- ===== src/Disp/AsioThreadPool.antt =====
-- dev/so_5_extra/disp/asio_thread_pool/pub.hpp: the binders with their counters, the handling of demands,
-- and the launch of the threads.
pub mod Reports
pub mod Launch
mod Tests
use so5extra.Prelude.{
  ℕ, zero, suc, ◌+◌, Bool, Option, none, some, List, [], ◌∷◌, ◌++◌, get_elem?, erase_at, set,
  replicate, if◌then◌else◌,
}
use so5extra.So5.{Error, Result, ok, throw, Noexcept, noexcept_call}
use so5extra.Disp.{World, Work, work_started, work_finished, call_handler, increment, decrement}

module _ {D : Type 0} where
  unfoldable pub agent_bound : World D → World D
  unfolding increment
  agent_bound w = record w { agents_bound = increment w.agents_bound }

  pub agent_unbound : World D → World D
  unfolding decrement
  agent_unbound w = record w { agents_bound = decrement w.agents_bound }

  unfoldable pub bind : World D → World D
  unfolding agent_bound
  bind w = agent_bound w

  -- The code calls `agent_bound` here as well.
  unfoldable pub unbind : World D → World D
  unfolding agent_bound
  unbind w = agent_bound w

  -- The counter is increased before `asio::post`, and stays so if that throws.
  unfoldable pub push : D → Option Error → World D → World D × Result (Unit {0})
  unfolding increment
  push d failure w =
      let counted = record w { demands_counter = increment w.demands_counter } in
      elim failure [
        | some e ↦ (counted, throw e)
        | none ↦ (record counted { posted = w.posted ++ d ∷ [] }, ok tt)
      ]

  pub push_evt_start : D → Option Error → World D → World D × Result (Unit {0})
  unfolding push
  push_evt_start d failure w = push d failure w

  pub push_evt_finish : D → Option Error → World D → World D × Noexcept (Unit {0})
  unfolding push
  push_evt_finish d failure w = let (w', r) = push d failure w in (w', noexcept_call r)

  -- `on_demand` of the threads with and without the tracking of their activity.
  pub on_demand : Bool → D → List (Work D)
  on_demand activity_tracking d =
      if activity_tracking
      then work_started ∷ call_handler d ∷ work_finished ∷ []
      else call_handler d ∷ []

  -- What was posted for the demand number `i`, up to `on_demand`.
  unfoldable pub begin_demand : ℕ → World D → World D × Option D
  unfolding decrement
  begin_demand i w = elim (get_elem? w.posted i) [
    | none ↦ (w, none)
    | some d ↦ (
      record w { demands_counter = decrement w.demands_counter; posted = erase_at w.posted i },
      some d,
    )
  ]

  -- The numbers of agents and of demands that `disp_data_source_t` sends.
  unfoldable pub distribute : World D → ℕ × ℕ
  distribute w = (w.agents_bound, w.demands_counter)

module _ {H O : Type 0} (make_work_thread : ℕ → O → O × Result H) (join : H → O → O)
    (stop : O → O) where
  -- The loop of `launch_work_threads`, from the thread `i` on, with `n` threads to make.
  unfoldable pub make_threads :
      ℕ → ℕ → List (Option H) → O → List (Option H) × O × Result (Unit {0})
  make_threads zero i threads o = (threads, o, ok tt)
  make_threads (suc n) i threads o =
      let (o', r) = make_work_thread i o in
      elim r [
        | throw e ↦ (threads, o', throw e)
        | ok t ↦ make_threads n (i + 1) (set threads i (some t)) o'
      ]

  -- The loop of the rollback, up to the first thread that was not started.
  unfoldable pub join_started : List (Option H) → O → List (Option H) × O
  join_started [] o = ([], o)
  join_started (none ∷ threads) o = (none ∷ threads, o)
  join_started (some t ∷ threads) o =
      let (rest, o') = join_started threads (join t o) in (none ∷ rest, o')

  -- `do_with_rollback_on_exception`, after the loop.
  unfoldable pub rolled_back :
      List (Option H) × O × Result (Unit {0}) → List (Option H) × O × Result (Unit {0})
  unfolding join_started
  rolled_back (threads, o, ok u) = (threads, o, ok u)
  rolled_back (threads, o, throw e) =
      let (rest, o') = join_started threads (stop o) in (rest, o', throw e)

  unfoldable pub launch_work_threads : ℕ → O → List (Option H) × O × Result (Unit {0})
  unfolding make_threads rolled_back
  launch_work_threads thread_count o =
      rolled_back (make_threads thread_count 0 (replicate thread_count none) o)

  -- The loop of `wait_work_threads`, over threads that are all started.
  unfoldable pub wait_work_threads : List H → O → O
  wait_work_threads [] o = o
  wait_work_threads (t ∷ threads) o = wait_work_threads threads (join t o)
