-- ===== src/Disp/AsioOneThread/Reports.antt =====
-- The numbers that the dispatcher reports.
use so5extra.Prelude.{
  ℕ, ◌+◌, ◌-◌, ◌%◌, ◌<◌, ◌≡◌, refl, ap, ap₂, ◌∙◌, Bool, Option, none, some, List, [], ◌∷◌, arith,
  get_elem?, length, length-append, Option-cases, inl, inr,
}
use so5extra.So5.{Error}
use so5extra.Disp.{
  size_mod, World, new_world, Event, binds, unbinds, pushes, handles, increment, increment-at,
  decrement-at, length-erase_at,
}
use so5extra.Disp.AsioOneThread.{bind, unbind, push, handle_demand, distribute}

module _ {D : Type 0} where
  -- The agents that are bound after the events, if `n` are bound before.
  abbrev pub alive : ℕ → List (Event D) → ℕ
  alive n [] = n
  alive n (binds ∷ es) = alive (n + 1) es
  alive n (unbinds ∷ es) = alive (n - 1) es
  alive n (pushes d failure ∷ es) = alive n es
  alive n (handles i ∷ es) = alive n es

  -- An agent is unbound only if it is bound.
  abbrev pub Balanced : ℕ → List (Event D) → Type 0
  Balanced n [] = Unit
  Balanced n (binds ∷ es) = Balanced (n + 1) es
  Balanced n (unbinds ∷ es) = (0 < n) × Balanced (n - 1) es
  Balanced n (pushes d failure ∷ es) = Balanced n es
  Balanced n (handles i ∷ es) = Balanced n es

  record Reports (agents : ℕ) (w : World D) : Type 0 where
    pub counts_agents : w.agents_bound ≡ agents % size_mod
    pub counts_demands : w.demands_counter ≡ length w.posted % size_mod

module _ {D : Type 0} (activity_tracking : Bool) where
  unfoldable pub step : World D → Event D → World D
  unfolding bind unbind push handle_demand
  step w binds = bind w
  step w unbinds = unbind w
  step w (pushes d failure) = (push d failure w).0
  step w (handles i) = (handle_demand activity_tracking i w).0

  unfoldable pub run : World D → List (Event D) → World D
  unfolding step
  run w [] = w
  run w (e ∷ es) = run (step w e) es

  push-Reports :
      (n : ℕ) (w : World D) (d : D) (failure : Option Error)
      → Reports n w
      → Reports n (push d failure w).0
  unfolding push
  push-Reports n w d none v = record {
    counts_agents = v.counts_agents;
    counts_demands =
        increment-at w.demands_counter _ v.counts_demands
        ∙ ap (λ x. x % size_mod) (omega (arith, length-append w.posted (d ∷ [])));
  }
  push-Reports n w d (some e) v = record {
    counts_agents = v.counts_agents;
    counts_demands =
        decrement-at (increment w.demands_counter) _ _
          (increment-at w.demands_counter _ v.counts_demands) refl;
  }

  handle-Reports :
      (n i : ℕ) (w : World D) → Reports n w → Reports n (handle_demand activity_tracking i w).0
  unfolding handle_demand
  handle-Reports n i w v = elim (Option-cases (get_elem? w.posted i)) [
    | inl h ↦ rw (h, handle_demand) v
    | inr (d, h) ↦
        rw (h, handle_demand)
          (record {
            counts_agents = v.counts_agents;
            counts_demands =
                decrement-at w.demands_counter _ _ v.counts_demands
                  (length-erase_at w.posted i d h);
          })
  ]

  run-Reports :
      (n : ℕ) (w : World D) (es : List (Event D))
      → Balanced n es
      → Reports n w
      → Reports (alive n es) (run w es)
  unfolding run step bind unbind
  run-Reports n w [] b v = v
  run-Reports n w (binds ∷ es) b v = run-Reports (n + 1) (bind w) es b (record {
    counts_agents = increment-at w.agents_bound n v.counts_agents;
    counts_demands = v.counts_demands;
  })
  run-Reports n w (unbinds ∷ es) b v = run-Reports (n - 1) (unbind w) es b.1 (record {
    counts_agents = decrement-at w.agents_bound n (n - 1) v.counts_agents (omega (arith, b.0));
    counts_demands = v.counts_demands;
  })
  run-Reports n w (pushes d failure ∷ es) b v =
      run-Reports n (push d failure w).0 es b (push-Reports n w d failure v)
  run-Reports n w (handles i ∷ es) b v =
      run-Reports n (handle_demand activity_tracking i w).0 es b (handle-Reports n i w v)

  -- After any history of a new dispatcher in which agents are unbound only if they are bound, it
  -- reports how many agents are bound and how many demands wait, modulo 2 ^ 64, whether some
  -- demands could not be posted or not.
  pub run-alive :
      (es : List (Event D))
      → Balanced 0 es
      → distribute (run new_world es)
        ≡ (alive 0 es % size_mod, length (run new_world es).posted % size_mod)
  unfolding distribute
  run-alive es b =
      let v =
        run-Reports 0 new_world es b (record { counts_agents = refl; counts_demands = refl }) in
      ap₂ (λ x y. (x, y)) v.counts_agents v.counts_demands
