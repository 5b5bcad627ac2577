-- ===== src/Disp/AsioOneThread/Tests.antt =====
-- The theorem on the numbers that are reported at a concrete history.
use so5extra.Prelude.{ℕ, ◌%◌, ◌≡◌, true, none, some, List, [], ◌∷◌, arith, length}
use so5extra.So5.{rc_not_implemented}
use so5extra.Disp.{size_mod, new_world, Event, binds, unbinds, pushes, handles}
use so5extra.Disp.AsioOneThread.{distribute}
use so5extra.Disp.AsioOneThread.Reports.{run, run-alive}

abbrev day : List (Event ℕ)
day =
    binds
    ∷ pushes 41 none
    ∷ binds
    ∷ pushes 42 (some rc_not_implemented)
    ∷ pushes 43 none
    ∷ handles 0
    ∷ unbinds
    ∷ []

run-alive_example :
    distribute (run true new_world day)
    ≡ (1 % size_mod, length (run true new_world day).posted % size_mod)
run-alive_example = run-alive true day (omega arith, tt)
