-- ===== src/AsioEnv/Timers/Release.antt =====
-- What is delivered after the release of a timer.
use so5extra.Prelude.{
  ◌≡◌, refl, ap, ◌∙◌, ◌⊎◌, inl, inr, true, false, Option, none, some, List, [], ◌∷◌,
}
use so5extra.So5.{Error, Noexcept, returns, terminates}
use so5extra.AsioEnv.Timers.{
  ErrorCode, success, operation_aborted, SteadyTimer, World, cancel, on_wait, release,
  ensure_we_can_handle_this_timer_error_code,
}

-- What the documentation of Asio says of a `steady_timer`: a handler that is queued is not cancelled any
-- more.
pub record IsSteadyTimer {Duration S : Type 0} (asio : SteadyTimer Duration S) : Type 0 where
  pub starts :
      (d : Duration) (s : S)
      → asio.waiting s ≡ false
      → asio.queued s ≡ none
      → (asio.waiting (asio.async_wait (asio.expires_after d s)) ≡ true)
        × (asio.queued (asio.async_wait (asio.expires_after d s)) ≡ none)
  pub expires :
      (s : S)
      → asio.waiting s ≡ true
      → (asio.waiting (asio.passes s) ≡ false) × (asio.queued (asio.passes s) ≡ some success)
  pub idles :
      (s : S)
      → asio.waiting s ≡ false
      → (asio.waiting (asio.passes s) ≡ false) × (asio.queued (asio.passes s) ≡ asio.queued s)
  pub aborts :
      (s : S)
      → asio.waiting s ≡ true
      → (asio.waiting (asio.cancel s) ≡ false)
        × (asio.queued (asio.cancel s) ≡ some operation_aborted)
  pub keeps :
      (s : S)
      → asio.waiting s ≡ false
      → (asio.waiting (asio.cancel s) ≡ false) × (asio.queued (asio.cancel s) ≡ asio.queued s)
  pub takes :
      (s : S)
      → asio.waiting s ≡ false
      → (asio.waiting (asio.take s) ≡ false) × (asio.queued (asio.take s) ≡ none)

pub data Event : Type 0 where
  time_passes handler_runs releases : Event

module _ {Duration S Demand : Type 0} (asio : SteadyTimer Duration S)
    (rc_unexpected_error : Error) where
  unfoldable pub called :
      Option ErrorCode → World Duration S Demand → Noexcept (World Duration S Demand)
  unfolding on_wait
  called none w = returns w
  called (some ec) w = on_wait asio rc_unexpected_error ec (record w { timer = asio.take w.timer })

  unfoldable pub step : World Duration S Demand → Event → Noexcept (World Duration S Demand)
  unfolding called release
  step w time_passes = returns (record w { timer = asio.passes w.timer })
  step w handler_runs = called (asio.queued w.timer) w
  step w releases = returns (release asio w)

  unfoldable pub step_on :
      Noexcept (World Duration S Demand) → Event → Noexcept (World Duration S Demand)
  unfolding step
  step_on terminates e = terminates
  step_on (returns w) e = step w e

  unfoldable pub run :
      Noexcept (World Duration S Demand) → List Event → Noexcept (World Duration S Demand)
  unfolding step_on
  run w [] = w
  run w (e ∷ es) = run (step_on w e) es

  module _ (laws : IsSteadyTimer asio) where
    -- A released timer of which nothing is delivered any more, after what `sent` has.
    record IsSilent (sent : List Demand) (w : World Duration S Demand) : Type 0 where
      pub unheld : w.held ≡ false
      pub not_waiting : asio.waiting w.timer ≡ false
      pub no_success : (asio.queued w.timer ≡ none) ⊎ (asio.queued w.timer ≡ some operation_aborted)
      pub same : w.delivered ≡ sent

    runs-IsSilent :
        (sent : List Demand) (w : World Duration S Demand)
        → IsSilent sent w
        → (w' : World Duration S Demand) × (called (asio.queued w.timer) w ≡ returns w')
          × IsSilent sent w'
    unfolding called on_wait ensure_we_can_handle_this_timer_error_code
    runs-IsSilent sent w v = elim v.no_success [
      | inl h ↦ (w, ap (λ q. called q w) h, v)
      | inr h ↦ (
        record w { timer = asio.take w.timer },
        ap (λ q. called q w) h,
        record {
          unheld = v.unheld;
          not_waiting = (laws.takes w.timer v.not_waiting).0;
          no_success = inl (laws.takes w.timer v.not_waiting).1;
          same = v.same;
        },
      )
    ]

    step-IsSilent :
        (sent : List Demand) (w : World Duration S Demand) (e : Event)
        → IsSilent sent w
        → (w' : World Duration S Demand) × (step w e ≡ returns w') × IsSilent sent w'
    unfolding step release
    step-IsSilent sent w time_passes v =
        let (still, kept) = laws.idles w.timer v.not_waiting in
        (
          record w { timer = asio.passes w.timer },
          refl,
          record {
            unheld = v.unheld;
            not_waiting = still;
            no_success = elim v.no_success [ inl h ↦ inl (kept ∙ h) | inr h ↦ inr (kept ∙ h) ];
            same = v.same;
          },
        )
    step-IsSilent sent w handler_runs v = runs-IsSilent sent w v
    step-IsSilent sent w releases v = (w, ap returns (rw (v.unheld, release) refl), v)

    run-IsSilent :
        (sent : List Demand) (w : World Duration S Demand) (es : List Event)
        → IsSilent sent w
        → (w' : World Duration S Demand) × (run (returns w) es ≡ returns w') × IsSilent sent w'
    unfolding run step_on
    run-IsSilent sent w [] v = (w, refl, v)
    run-IsSilent sent w (e ∷ es) v =
        let (w', s, v') = step-IsSilent sent w e v in
        let (w'', r, v'') = run-IsSilent sent w' es v' in (w'', ap (λ x. run x es) s ∙ r, v'')

    -- A timer that is released before its time has come delivers nothing afterwards, whatever happens.
    pub released_in_time :
        (w : World Duration S Demand) (es : List Event)
        → w.held ≡ true
        → asio.waiting w.timer ≡ true
        → (w' : World Duration S Demand) × (run (returns (release asio w)) es ≡ returns w')
          × (w'.delivered ≡ w.delivered)
    unfolding release cancel
    released_in_time w es h waits =
        let (still, aborted) = laws.aborts w.timer waits in
        let (w', r, v) = run-IsSilent w.delivered (release asio w) es (
          rw (h, release)
            (record {
              unheld = refl;
              not_waiting = still;
              no_success = inr aborted;
              same = refl;
            })) in
        (w', r, v.same)
