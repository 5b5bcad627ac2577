-- ===== src/Disp/AsioThreadPool/Reports.antt =====
-- The numbers that the dispatcher reports.
use so5extra.Prelude.{ℕ, ◌+◌, ◌%◌, ◌≡◌, none, some, List, [], ◌∷◌, length}
use so5extra.Disp.{size_mod, World, Event, binds, unbinds, pushes, handles}
use so5extra.Disp.AsioThreadPool.{bind, unbind, push, begin_demand}

module _ {D : Type 0} where
  unfoldable pub step : World D → Event D → World D
  unfolding bind unbind push begin_demand
  step w binds = bind w
  step w unbinds = unbind w
  step w (pushes d failure) = (push d failure w).0
  step w (handles i) = (begin_demand i w).0

  unfoldable pub run : World D → List (Event D) → World D
  unfolding step
  run w [] = w
  run w (e ∷ es) = run (step w e) es

  abbrev pub bound_and_unbound : List (Event D) → ℕ
  bound_and_unbound [] = 0
  bound_and_unbound (binds ∷ es) = bound_and_unbound es + 1
  bound_and_unbound (unbinds ∷ es) = bound_and_unbound es + 1
  bound_and_unbound (pushes d failure ∷ es) = bound_and_unbound es
  bound_and_unbound (handles i ∷ es) = bound_and_unbound es

  abbrev pub not_posted : List (Event D) → ℕ
  not_posted [] = 0
  not_posted (binds ∷ es) = not_posted es
  not_posted (unbinds ∷ es) = not_posted es
  not_posted (pushes d (some e) ∷ es) = not_posted es + 1
  not_posted (pushes d none ∷ es) = not_posted es
  not_posted (handles i ∷ es) = not_posted es

  record Reports (agents lost : ℕ) (w : World D) : Type 0 where
    pub counts_agents : w.agents_bound ≡ agents % size_mod
    pub counts_demands : w.demands_counter ≡ (length w.posted + lost) % size_mod
