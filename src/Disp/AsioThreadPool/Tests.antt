-- ===== src/Disp/AsioThreadPool/Tests.antt =====
-- The theorems on the dispatcher at concrete inputs.
use so5extra.Prelude.{ℕ, ◌+◌, ◌≡◌, none, some, List, [], ◌∷◌, ◌==◌, if◌then◌else◌}
use so5extra.So5.{Result, ok, throw, rc_not_implemented}
use so5extra.Disp.{Event, binds, unbinds, pushes, handles}
use so5extra.Disp.AsioThreadPool.{launch_work_threads}
use so5extra.Disp.AsioThreadPool.Launch.{Made, settled, launch-settled}

-- Two agents come and both leave.
abbrev day : List (Event ℕ)
day =
    binds
    ∷ pushes 41 none
    ∷ binds
    ∷ pushes 42 (some rc_not_implemented)
    ∷ unbinds
    ∷ handles 0
    ∷ unbinds
    ∷ []

-- The thread 2 cannot be made; the state has the threads that are joined.
abbrev make : ℕ → List ℕ → List ℕ × Result ℕ
make i o = if i == 2 then (o, throw rc_not_implemented) else (o, ok (i + 10))

abbrev join : ℕ → List ℕ → List ℕ
join t o = t ∷ o

launch-settled_example :
    (ts : List ℕ) × (o : List ℕ) × (r : Result (Unit {0})) × Made make join (λ o. o) 4 0 [] ts o r
    × (launch_work_threads make join (λ o. o) 4 [] ≡ settled make join (λ o. o) 4 ts o r)
launch-settled_example = launch-settled make join (λ o. o) 4 []
