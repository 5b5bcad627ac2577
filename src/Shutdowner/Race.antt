-- ===== src/Shutdowner/Race.antt =====
-- `do_initiate_shutdown` runs without the lock: sinks may leave before it starts the timer.
use so5extra.Prelude.{◌≡◌, refl, true, false, not, List, [], ◌∷◌, arith, Ord, ◌∙◌, ap}
use so5extra.Std.SortedVector.{IsStrict}
use so5extra.Shutdowner.{
  started, Mbox, address, complete_shutdown, perform, start_shutdown_clock,
  ensure_valid_message_type, is_empty, do_event_unsubscripton, begin_shutdown,
  unsubscribe_event_handler,
}
use so5extra.Shutdowner.Calls.{unsubscribes, is_completed, is_idle, step, run}
use so5extra.Shutdowner.Leaving.{all_among, leaves, run-started}

module _ {S T : Type 0} (M : Type 0) ⦃os : Ord S⦄ ⦃ot : Ord T⦄ (shutdown_initiated : T) where
  -- The sinks `leaving` unsubscribe after the status is `started`, and before the timer is started.
  unfoldable pub overtaken : Mbox S → List S → Mbox S
  unfolding start_shutdown_clock begin_shutdown
  overtaken b leaving =
      start_shutdown_clock
        (run {M = M} shutdown_initiated (begin_shutdown b).0 (leaves shutdown_initiated leaving)).0

  leave-guarded :
      (b : Mbox S) (s : S)
      → b.stop_guard ≡ not (is_completed b.status)
      → (step {M = M} shutdown_initiated b (unsubscribes shutdown_initiated s)).0.stop_guard
        ≡ not (
            is_completed
              (step {M = M} shutdown_initiated b (unsubscribes shutdown_initiated s)).0.status)
  unfolding step unsubscribe_event_handler ensure_valid_message_type do_event_unsubscripton perform
      complete_shutdown
  leave-guarded b s h = ground (arith, h)

  run-guarded :
      (b : Mbox S) (leaving : List S)
      → b.stop_guard ≡ not (is_completed b.status)
      → (run {M = M} shutdown_initiated b (leaves shutdown_initiated leaving)).0.stop_guard
        ≡ not (
            is_completed
              (run {M = M} shutdown_initiated b (leaves shutdown_initiated leaving)).0.status)
  unfolding run leaves
  run-guarded b [] h = h
  run-guarded b (s ∷ l) h =
      run-guarded (step {M = M} shutdown_initiated b (unsubscribes shutdown_initiated s)).0 l
        (leave-guarded b s h)

  begun :
      (b : Mbox S)
      → is_idle b.status ≡ true
      → is_empty b.subscribers ≡ false
      → (begin_shutdown b).0 ≡ record b { status = started }
  unfolding begin_shutdown
  begun b idle somebody = ground (arith, idle, somebody)

  -- If all the subscribed sinks leave after the status became `started` and before the timer is
  -- started, the shutdown is completed and its stop guard is gone, and the timer that ends the
  -- program runs all the same.
  pub overtaken-timer :
      (b : Mbox S) (leaving : List S)
      → is_idle b.status ≡ true
      → is_empty b.subscribers ≡ false
      → IsStrict address b.subscribers
      → b.stop_guard ≡ true
      → all_among b.subscribers leaving ≡ true
      → (is_completed (overtaken b leaving).status ≡ true)
        × ((overtaken b leaving).stop_guard ≡ false)
        × ((overtaken b leaving).shutdown_timer ≡ true)
  unfolding overtaken start_shutdown_clock
  overtaken-timer b leaving idle somebody s guard all = rw (begun b idle somebody) (
      let b' = record b { status = started } in
      let done = run-started M shutdown_initiated b' leaving refl somebody s ∙ all in
      (done, run-guarded b' leaving guard ∙ ap not done, refl))
