-- ===== src/AsioEnv/Timers/Late.antt =====
-- A periodic timer whose release comes when its handler is queued.
use so5extra.Prelude.{
  ℕ, zero, suc, ◌≡◌, refl, ap, sym, ◌∙◌, true, false, some, List, [], ◌∷◌, ◌++◌, append_assoc,
  append-nil, replicate,
}
use so5extra.So5.{Error, returns}
use so5extra.AsioEnv.Timers.{
  success, SteadyTimer, periodic, World, cancel, schedule_from_now, again, on_wait, release,
  ensure_we_can_handle_this_timer_error_code,
}
use so5extra.AsioEnv.Timers.Release.{
  IsSteadyTimer, Event, time_passes, handler_runs, called, step, step_on, run,
}

unfoldable pub rounds : ℕ → List Event
rounds zero = []
rounds (suc n) = handler_runs ∷ time_passes ∷ rounds n

module _ {Duration S Demand : Type 0} (asio : SteadyTimer Duration S) (rc_unexpected_error : Error)
    (laws : IsSteadyTimer asio) where
  -- A timer that is released and whose handler is queued all the same.
  record IsLate (period : Duration) (demand : Demand) (w : World Duration S Demand) : Type 0 where
    pub unheld : w.held ≡ false
    pub not_waiting : asio.waiting w.timer ≡ false
    pub ready : asio.queued w.timer ≡ some success
    pub repeats : w.kind ≡ periodic period
    pub sends : w.demand ≡ demand

  round-IsLate :
      (period : Duration) (demand : Demand) (w : World Duration S Demand) (es : List Event)
      → IsLate period demand w
      → (w' : World Duration S Demand) × (run asio rc_unexpected_error
            (returns w)
            (handler_runs ∷ time_passes ∷ es)
          ≡ run asio rc_unexpected_error (returns w') es)
        × (w'.delivered ≡ w.delivered ++ demand ∷ [])
        × IsLate period demand w'
  unfolding run step_on step called on_wait again schedule_from_now
      ensure_we_can_handle_this_timer_error_code
  round-IsLate period demand w es v =
      let (still, empty) = laws.takes w.timer v.not_waiting in
      let (waits, no_more) = laws.starts period (asio.take w.timer) still empty in
      let waiting_timer = asio.async_wait (asio.expires_after period (asio.take w.timer)) in
      let (done, ready) = laws.expires waiting_timer waits in
      (
        record w { timer = asio.passes waiting_timer; delivered = w.delivered ++ w.demand ∷ [] },
        rw (v.ready, v.repeats, called) refl,
        ap (λ d. w.delivered ++ d ∷ []) v.sends,
        record {
          unheld = v.unheld;
          not_waiting = done;
          ready = ready;
          repeats = v.repeats;
          sends = v.sends;
        },
      )

  rounds-IsLate :
      (period : Duration) (demand : Demand) (n : ℕ) (w : World Duration S Demand)
      → IsLate period demand w
      → (w' : World Duration S Demand) × (run asio rc_unexpected_error (returns w) (rounds n)
          ≡ returns w')
        × (w'.delivered ≡ w.delivered ++ replicate n demand)
        × (w'.held ≡ false)
  unfolding rounds run
  rounds-IsLate period demand zero w v = (w, refl, sym (append-nil w.delivered), v.unheld)
  rounds-IsLate period demand (suc n) w v =
      let (w1, one, told, v1) = round-IsLate period demand w (rounds n) v in
      let (w2, others, more, gone) = rounds-IsLate period demand n w1 v1 in
      (
        w2,
        one ∙ others,
        more
            ∙ ap (λ l. l ++ replicate n demand) told
            ∙ append_assoc w.delivered (demand ∷ []) (replicate n demand),
        gone,
      )

  -- If a periodic timer is released when its handler is already queued, then it goes on after the
  -- release: in any number of rounds, in each of which the handler runs and the period passes, the
  -- message is delivered once more, though the timer is not active any more.
  pub released_late :
      (w : World Duration S Demand) (period : Duration) (n : ℕ)
      → w.held ≡ true
      → w.kind ≡ periodic period
      → asio.waiting w.timer ≡ false
      → asio.queued w.timer ≡ some success
      → (w' : World Duration S Demand) × (run asio rc_unexpected_error
            (returns (release asio w))
            (rounds n)
          ≡ returns w')
        × (w'.delivered ≡ w.delivered ++ replicate n w.demand)
        × (w'.held ≡ false)
  unfolding release cancel
  released_late w period n h k quiet ready =
      let (still, kept) = laws.keeps w.timer quiet in
      rw (h, release)
        (rounds-IsLate period w.demand n (record (cancel asio w) { held = false })
          (record {
            unheld = refl;
            not_waiting = still;
            ready = kept ∙ ready;
            repeats = k;
            sends = refl;
          }))
