-- ===== src/AsioEnv/Timers/Tests.antt =====
-- The theorems on the release of timers over a concrete timer of Asio.
use so5extra.Prelude.{ℕ, ◌≡◌, refl, Bool, true, false, Option, none, some, [], ◌∷◌, arith, ◌==◌}
use so5extra.So5.{rc_not_implemented, returns}
use so5extra.AsioEnv.Timers.{
  ErrorCode, success, operation_aborted, SteadyTimer, periodic, World, release, schedule_timer,
}
use so5extra.AsioEnv.Timers.Late.{rounds, released_late}
use so5extra.AsioEnv.Timers.Release.{
  IsSteadyTimer, time_passes, handler_runs, run, released_in_time,
}

data Machine : Type 0 where
  idle waits : Machine
  fires : ErrorCode → Machine

abbrev async_wait : Machine → Machine
async_wait s = waits

abbrev stop : Machine → Machine
stop idle = idle
stop waits = fires operation_aborted
stop (fires ec) = fires ec

abbrev take_handler : Machine → Machine
take_handler idle = idle
take_handler waits = waits
take_handler (fires ec) = idle

abbrev expire : Machine → Machine
expire idle = idle
expire waits = fires success
expire (fires ec) = fires ec

abbrev is_waiting : Machine → Bool
is_waiting idle = false
is_waiting waits = true
is_waiting (fires ec) = false

abbrev in_queue : Machine → Option ErrorCode
in_queue idle = none
in_queue waits = none
in_queue (fires ec) = some ec

abbrev machine : SteadyTimer ℕ Machine
machine = record {
  expires_after = λ d s. stop s;
  async_wait = async_wait;
  cancel = stop;
  take = take_handler;
  passes = expire;
  waiting = is_waiting;
  queued = in_queue;
}

starts_again :
    (s : Machine)
    → is_waiting s ≡ false
    → in_queue s ≡ none
    → (is_waiting (async_wait (stop s)) ≡ true) × (in_queue (async_wait (stop s)) ≡ none)
starts_again s quiet h = (refl, refl)

expires_then :
    (s : Machine)
    → is_waiting s ≡ true
    → (is_waiting (expire s) ≡ false) × (in_queue (expire s) ≡ some success)
expires_then idle h = ground (arith, h)
expires_then waits h = (refl, refl)
expires_then (fires ec) h = ground (arith, h)

idles_on :
    (s : Machine)
    → is_waiting s ≡ false
    → (is_waiting (expire s) ≡ false) × (in_queue (expire s) ≡ in_queue s)
idles_on idle h = (refl, refl)
idles_on waits h = ground (arith, h)
idles_on (fires ec) h = (refl, refl)

aborts_it :
    (s : Machine)
    → is_waiting s ≡ true
    → (is_waiting (stop s) ≡ false) × (in_queue (stop s) ≡ some operation_aborted)
aborts_it idle h = ground (arith, h)
aborts_it waits h = (refl, refl)
aborts_it (fires ec) h = ground (arith, h)

keeps_it :
    (s : Machine)
    → is_waiting s ≡ false
    → (is_waiting (stop s) ≡ false) × (in_queue (stop s) ≡ in_queue s)
keeps_it idle h = (refl, refl)
keeps_it waits h = ground (arith, h)
keeps_it (fires ec) h = (refl, refl)

takes_it :
    (s : Machine)
    → is_waiting s ≡ false
    → (is_waiting (take_handler s) ≡ false) × (in_queue (take_handler s) ≡ none)
takes_it idle h = (refl, refl)
takes_it waits h = ground (arith, h)
takes_it (fires ec) h = (refl, refl)

machine-IsSteadyTimer : IsSteadyTimer machine
machine-IsSteadyTimer = record {
  starts = λ d s. starts_again s;
  expires = expires_then;
  idles = idles_on;
  aborts = aborts_it;
  keeps = keeps_it;
  takes = takes_it;
}

abbrev ticker : Machine → World ℕ Machine ℕ
ticker timer = record {
  kind = periodic 5;
  timer = timer;
  demand = 41;
  held = true;
  delivered = 41 ∷ [];
}

made : schedule_timer machine (λ d. d == 0) idle 41 5 5 ≡ record (ticker waits) { delivered = [] }
unfolding schedule_timer
made = refl

released_in_time_example :
    (w : World ℕ Machine ℕ) × (run machine rc_not_implemented
        (returns (release machine (ticker waits)))
        (time_passes ∷ handler_runs ∷ time_passes ∷ [])
      ≡ returns w)
    × (w.delivered ≡ 41 ∷ [])
released_in_time_example =
    released_in_time machine rc_not_implemented machine-IsSteadyTimer (ticker waits)
      (time_passes ∷ handler_runs ∷ time_passes ∷ []) refl refl

released_late_example :
    (w : World ℕ Machine ℕ) × (run machine rc_not_implemented
        (returns (release machine (ticker (fires success))))
        (rounds 3)
      ≡ returns w)
    × (w.delivered ≡ 41 ∷ 41 ∷ 41 ∷ 41 ∷ [])
    × (w.held ≡ false)
released_late_example =
    released_late machine rc_not_implemented machine-IsSteadyTimer (ticker (fires success)) 5 3 refl
      refl refl refl
