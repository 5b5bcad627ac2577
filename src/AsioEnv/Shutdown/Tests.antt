-- ===== src/AsioEnv/Shutdown/Tests.antt =====
-- The theorem on the shutdown over a repository that counts the coops.
use so5extra.Prelude.{ℕ, ◌+◌, ◌-◌, ◌≡◌, refl, true, List, [], ◌∷◌, arith, ltb}
use so5extra.AsioEnv.Shutdown.{
  completed, CoopRepo, new_world, check_shutdown_completeness, check_at, stop, stop_at,
  run_begin_shutdown, register_coop, ready_to_deregister_notify, final_deregister_coop, run_task,
  run_posted,
}
use so5extra.AsioEnv.Shutdown.Progress.{
  IsCoopRepo, last_one_stops, Event, stops, registers, readies, runs, IsValid, step, run,
  run-new-IsValid,
}

abbrev counting : CoopRepo ℕ ℕ
counting = record {
  has_live_coop = λ r. ltb 0 r;
  register_coop = λ c r. r + 1;
  deregister_all_coop = λ r. r;
  final_deregister_coop = λ c r. (r - 1, ltb 0 (r - 1));
}

live_then : (c r : ℕ) → ltb 0 r ≡ true → ltb 0 (r + 1) ≡ true
live_then c r h = ground arith

counting-IsCoopRepo : IsCoopRepo counting
counting-IsCoopRepo = record { told = λ c r. refl; registered = live_then }

-- One coop; `stop`, the beginning of the shutdown, and the end of the coop.
abbrev day : List (Event ℕ)
day = registers 1 ∷ stops ∷ runs 0 ∷ readies 1 ∷ runs 0 ∷ []

ends : (run counting (last_one_stops counting) (new_world 0) day).shutdown_status ≡ completed
unfolding run step stop stop_at check_shutdown_completeness check_at run_begin_shutdown
    register_coop ready_to_deregister_notify final_deregister_coop run_task run_posted
    last_one_stops
ends = refl

run-new-IsValid_example :
    IsValid counting (run counting (last_one_stops counting) (new_world 0) day)
run-new-IsValid_example =
    run-new-IsValid counting counting-IsCoopRepo (last_one_stops counting) (λ c w. refl) 0 day
