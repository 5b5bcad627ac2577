-- ===== src/Shutdowner/Tests.antt =====
-- The theorems on the shutdowner at concrete inputs.
use so5extra.Prelude.{map, ℕ, ◌≡◌, refl, true, false, List, [], ◌∷◌, nat_ord}
use so5extra.So5.{Delivery, ordinary}
use so5extra.Std.SortedVector.{lower_bound}
use so5extra.Shutdowner.{Mbox, subscribe_event_handler, new_mbox, not_started}
use so5extra.Shutdowner.Calls.{Call, subscribes, unsubscribes, delivers, is_completed, run}
use so5extra.Shutdowner.Completion.{IsValid, run-new_shutdowner-IsValid, told_push, told_once}
use so5extra.Shutdowner.Leaving.{all_among, leaves, all_leave-completes}
use so5extra.Shutdowner.Race.{overtaken, overtaken-timer}

abbrev stop : Delivery ℕ ℕ
stop = record { delivery_mode = ordinary; msg_type = 0; message = 0; redirection_deep = 4 }

abbrev arrivals : List (Call ℕ ℕ ℕ)
arrivals = subscribes 0 5 ∷ subscribes 0 3 ∷ subscribes 1 9 ∷ []

abbrev two_there : Mbox ℕ
two_there = record {
  id = 6;
  status = not_started;
  subscribers = 3 ∷ 5 ∷ [];
  shutdown_timer = false;
  stop_guard = true;
  completions = 0;
}

arrived : run 0 (new_mbox 6) arrivals ≡ (two_there, [])
unfolding run new_mbox subscribe_event_handler lower_bound
arrived = refl

run-new_shutdowner-IsValid_example : IsValid (run 0 (new_mbox {S = ℕ} 6) arrivals).0
run-new_shutdowner-IsValid_example = run-new_shutdowner-IsValid 0 6 arrivals

told_once_example :
    (run 0 two_there (subscribes 0 4 ∷ delivers stop ∷ unsubscribes 0 3 ∷ delivers stop ∷ [])).1
    ≡ map (told_push 0 6 stop) (3 ∷ 4 ∷ 5 ∷ [])
unfolding run subscribe_event_handler lower_bound
told_once_example =
    told_once 0 two_there (subscribes 0 4 ∷ []) (unsubscribes 0 3 ∷ delivers stop ∷ []) stop refl
      refl

all_leave-completes_example :
    is_completed (run 0 two_there (delivers stop ∷ leaves {M = ℕ} 0 (5 ∷ 8 ∷ 3 ∷ []))).0.status
    ≡ all_among {S = ℕ} (3 ∷ 5 ∷ []) (5 ∷ 8 ∷ 3 ∷ [])
all_leave-completes_example =
    all_leave-completes ℕ 0 two_there stop (5 ∷ 8 ∷ 3 ∷ []) refl refl ((refl, tt), (tt, tt))

overtaken-timer_example :
    (is_completed (overtaken {T = ℕ} ℕ 0 two_there (5 ∷ 3 ∷ [])).status ≡ true)
    × ((overtaken {T = ℕ} ℕ 0 two_there (5 ∷ 3 ∷ [])).stop_guard ≡ false)
    × ((overtaken {T = ℕ} ℕ 0 two_there (5 ∷ 3 ∷ [])).shutdown_timer ≡ true)
unfolding all_among
overtaken-timer_example =
    overtaken-timer ℕ 0 two_there (5 ∷ 3 ∷ []) refl refl ((refl, tt), (tt, tt)) refl refl
