-- ===== src/AsioEnv/EventQueue.antt =====
-- dev/so_5_extra/env_infrastructures/asio/simple_not_mtsafe.hpp: the event queue with the calls of the
-- activity tracker. All runs on one thread.
pub mod Waiting
mod Tests
use so5extra.Prelude.{ℕ, Bool, Option, none, some, List, [], ◌∷◌, ◌++◌, ◌==◌, if◌then◌else◌}
use so5extra.So5.{Error, Result, ok, throw, Noexcept, noexcept_call}
use so5extra.Disp.{increment, decrement}

-- The calls of the activity tracker.
pub data Activity : Type 0 where
  wait_started wait_stopped work_started work_stopped : Activity

-- `posted` is what the `io_context` has to run, the first first.
pub record Queue (D : Type 0) : Type 0 where
  pub demands_count : ℕ
  pub posted : List D
  pub told : List Activity

module _ {D : Type 0} where
  unfoldable pub tell : Activity → Queue D → Queue D
  tell a q = record q { told = q.told ++ a ∷ [] }

  -- After `asio::post`, which may throw.
  unfoldable pub push : D → Option Error → Queue D → Queue D × Result (Unit {0})
  unfolding tell increment
  push d (some e) q = (q, throw e)
  push d none q =
      let q' = if 0 == q.demands_count then tell wait_stopped q else q in
      (record q' { demands_count = increment q.demands_count; posted = q.posted ++ d ∷ [] }, ok tt)

  pub push_evt_start : D → Option Error → Queue D → Queue D × Result (Unit {0})
  unfolding push
  push_evt_start d failure q = push d failure q

  pub push_evt_finish : D → Option Error → Queue D → Queue D × Noexcept (Unit {0})
  unfolding push
  push_evt_finish d failure q = let (q', r) = push d failure q in (q', noexcept_call r)

  unfoldable pub start : Queue D → Queue D
  unfolding tell
  start q = tell wait_started q

  -- What is posted for a demand, around `call_handler`, which does `handler` to the queue.
  unfoldable pub run_posted : (D → Queue D → Queue D) → Queue D → Queue D
  unfolding tell decrement
  run_posted handler q = elim q.posted [
    | [] ↦ q
    | d ∷ rest ↦
        let begun =
          tell work_started
            (record q { demands_count = decrement q.demands_count; posted = rest }) in
        let done = tell work_stopped (handler d begun) in
        if 0 == done.demands_count then tell wait_started done else done
  ]

  abbrev pub new_queue : Queue D
  new_queue = record { demands_count = 0; posted = []; told = [] }
