-- ===== src/AsioEnv/Shutdown/Progress.antt =====
-- A shutdown begins once and is never stuck.
use so5extra.Prelude.{
  ℕ, ◌+◌, ◌-◌, ◌≡◌, refl, ap, sym, ◌∙◌, subst, true, none, some, List, [], ◌∷◌, arith, get_elem?,
  erase_at, Option-cases, Bool-cases, inl, inr, if◌then◌else◌,
}
use so5extra.So5.{Result, ok, throw}
use so5extra.AsioEnv.Shutdown.Begins.{begins, begins-append, begins-begin, begins-finish}
use so5extra.AsioEnv.Shutdown.{
  new_world, ShutdownStatus, not_started, must_be_started, in_progress, completed, CoopRepo, Task,
  begin_shutdown, finish_coop, World, check_at, check_shutdown_completeness, stop_at, stop,
  run_begin_shutdown, register_coop, ready_to_deregister_notify, final_deregister_coop,
  init_returned, run_task, run_posted,
}

-- What SObjectizer's repository is relied on for.
pub record IsCoopRepo {C R : Type 0} (repo : CoopRepo C R) : Type 0 where
  pub told :
      (c : C) (r : R)
      → (repo.final_deregister_coop c r).1 ≡ repo.has_live_coop (repo.final_deregister_coop c r).0
  pub registered :
      (c : C) (r : R)
      → repo.has_live_coop r ≡ true
      → repo.has_live_coop (repo.register_coop c r) ≡ true

-- What SObjectizer's environment does when a coop has gone: if it was the last one, it stops, since the
-- automatic shutdown has to be enabled.
unfoldable pub last_one_stops : {C R : Type 0} → CoopRepo C R → C → World C R → World C R
unfolding stop final_deregister_coop
last_one_stops repo c w =
    let (w', live) = final_deregister_coop repo c w in if live then w' else stop repo w'

pub data Event (C : Type 0) : Type 0 where
  stops : Event C
  registers : C → Event C
  readies : C → Event C
  init_ends : Result (Unit {0}) → Event C
  runs : ℕ → Event C

module _ {C R : Type 0} (repo : CoopRepo C R) where
  abbrev pub expected : ShutdownStatus → ℕ
  expected not_started = 0
  expected must_be_started = 1
  expected in_progress = 0
  expected completed = 0

  abbrev pub Alive : ShutdownStatus → R → Type 0
  Alive not_started r = Unit
  Alive must_be_started r = Unit
  Alive in_progress r = repo.has_live_coop r ≡ true
  Alive completed r = Unit

  -- The task that begins the shutdown is posted exactly while the shutdown must be started, and a
  -- shutdown is in progress only while there is a live coop.
  abbrev pub IsValid : World C R → Type 0
  IsValid w = (begins w.tasks ≡ expected w.shutdown_status) × Alive w.shutdown_status w.coop_repo

  Alive-live : (s : ShutdownStatus) (r : R) → repo.has_live_coop r ≡ true → Alive s r
  Alive-live not_started r h = tt
  Alive-live must_be_started r h = tt
  Alive-live in_progress r h = h
  Alive-live completed r h = tt

  IsValid-at :
      (s : ShutdownStatus) (w : World C R)
      → w.shutdown_status ≡ s
      → begins w.tasks ≡ expected w.shutdown_status
      → Alive s w.coop_repo
      → IsValid w
  IsValid-at s w h b a = (b, subst (λ x. Alive x w.coop_repo) (sym h) a)

  check_at-IsValid :
      (s : ShutdownStatus) (w : World C R)
      → w.shutdown_status ≡ s
      → begins w.tasks ≡ expected w.shutdown_status
      → IsValid (check_at repo s w)
  unfolding check_at
  check_at-IsValid not_started w h b = IsValid-at not_started w h b tt
  check_at-IsValid must_be_started w h b = IsValid-at must_be_started w h b tt
  check_at-IsValid completed w h b = IsValid-at completed w h b tt
  check_at-IsValid in_progress w h b = elim (Bool-cases (repo.has_live_coop w.coop_repo)) [
    | inl live ↦
        subst IsValid
          (ap (λ x. if x then w else record w { shutdown_status = completed; io_stopped = true })
            (sym live))
          (IsValid-at in_progress w h b live)
    | inr gone ↦
        subst IsValid
          (ap (λ x. if x then w else record w { shutdown_status = completed; io_stopped = true })
            (sym gone))
          (b ∙ ap expected h, tt)
  ]

  check-IsValid :
      (w : World C R)
      → begins w.tasks ≡ expected w.shutdown_status
      → IsValid (check_shutdown_completeness repo w)
  unfolding check_shutdown_completeness
  check-IsValid w b = check_at-IsValid w.shutdown_status w refl b

  stop_at-IsValid :
      (s : ShutdownStatus) (w : World C R)
      → w.shutdown_status ≡ s
      → begins w.tasks ≡ expected w.shutdown_status
      → IsValid (stop_at repo s w)
  unfolding stop_at
  stop_at-IsValid not_started w h b =
      (omega (arith, begins-append w.tasks (begin_shutdown ∷ []), b ∙ ap expected h), tt)
  stop_at-IsValid must_be_started w h b = check-IsValid w b
  stop_at-IsValid in_progress w h b = check-IsValid w b
  stop_at-IsValid completed w h b = check-IsValid w b

  stop-IsValid :
      (w : World C R) → begins w.tasks ≡ expected w.shutdown_status → IsValid (stop repo w)
  unfolding stop
  stop-IsValid w b = stop_at-IsValid w.shutdown_status w refl b

  Alive-begun : (s : ShutdownStatus) (n : ℕ) → n + 1 ≡ expected s → n ≡ 0
  Alive-begun not_started n h = omega (arith, h)
  Alive-begun must_be_started n h = omega (arith, h)
  Alive-begun in_progress n h = omega (arith, h)
  Alive-begun completed n h = omega (arith, h)

  module _ (env_final_deregister_coop : C → World C R → World C R) where
    unfoldable pub step : World C R → Event C → World C R
    unfolding stop register_coop ready_to_deregister_notify init_returned run_posted
    step w stops = stop repo w
    step w (registers c) = register_coop repo c w
    step w (readies c) = ready_to_deregister_notify repo c w
    step w (init_ends r) = init_returned repo r w
    step w (runs i) = run_posted repo env_final_deregister_coop i w

    unfoldable pub run : World C R → List (Event C) → World C R
    unfolding step
    run w [] = w
    run w (e ∷ es) = run (step w e) es

  module _ (laws : IsCoopRepo repo) where
    Alive-register :
        (s : ShutdownStatus) (c : C) (r : R) → Alive s r → Alive s (repo.register_coop c r)
    Alive-register not_started c r h = tt
    Alive-register must_be_started c r h = tt
    Alive-register in_progress c r h = laws.registered c r h
    Alive-register completed c r h = tt

    last-IsValid :
        (c : C) (w : World C R)
        → begins w.tasks ≡ expected w.shutdown_status
        → IsValid (last_one_stops repo c w)
    unfolding last_one_stops final_deregister_coop
    last-IsValid c w b =
        let r = (repo.final_deregister_coop c w.coop_repo).0 in
        let w' : World C R = record w { coop_repo = r } in
        elim (Bool-cases (repo.final_deregister_coop c w.coop_repo).1) [
          | inl live ↦
              subst IsValid (ap (λ x. if x then w' else stop repo w') (sym live))
                (b, Alive-live w.shutdown_status r (sym (laws.told c w.coop_repo) ∙ live))
          | inr gone ↦
              subst IsValid (ap (λ x. if x then w' else stop repo w') (sym gone))
                (stop-IsValid w' b)
        ]

    module _ (env_final_deregister_coop : C → World C R → World C R)
        (documented : (c : C) (w : World C R)
          → env_final_deregister_coop c w ≡ last_one_stops repo c w) where
      task-IsValid :
          (t : Task C) (i : ℕ) (w : World C R)
          → get_elem? w.tasks i ≡ some t
          → IsValid w
          → IsValid
              (run_task repo env_final_deregister_coop t (record w { tasks = erase_at w.tasks i }))
      unfolding run_task run_begin_shutdown
      task-IsValid begin_shutdown i w h v =
          check-IsValid
            (record w {
              shutdown_status = in_progress;
              coop_repo = repo.deregister_all_coop w.coop_repo;
              tasks = erase_at w.tasks i;
            })
            (Alive-begun w.shutdown_status (begins (erase_at w.tasks i))
              (sym (begins-begin w.tasks i h) ∙ v.0))
      task-IsValid (finish_coop c) i w h v =
          let left : World C R = record w {
            tasks = erase_at w.tasks i;
            final_dereg_coop_count = w.final_dereg_coop_count - 1;
          } in
          subst IsValid (sym (documented c left))
            (last-IsValid c left (sym (begins-finish w.tasks i c h) ∙ v.0))

      posted-IsValid :
          (i : ℕ) (w : World C R)
          → IsValid w
          → IsValid (run_posted repo env_final_deregister_coop i w)
      unfolding run_posted
      posted-IsValid i w v = elim (Option-cases (get_elem? w.tasks i)) [
        | inl h ↦
            subst
              (λ x. IsValid (elim x [
                | none ↦ w
                | some t ↦
                    run_task repo env_final_deregister_coop t
                      (record w { tasks = erase_at w.tasks i })
              ]))
              (sym h) v
        | inr (t, h) ↦
            subst
              (λ x. IsValid (elim x [
                | none ↦ w
                | some t ↦
                    run_task repo env_final_deregister_coop t
                      (record w { tasks = erase_at w.tasks i })
              ]))
              (sym h) (task-IsValid t i w h v)
      ]

      step-IsValid :
          (w : World C R) (e : Event C) → IsValid w → IsValid (step env_final_deregister_coop w e)
      unfolding step register_coop ready_to_deregister_notify init_returned
      step-IsValid w stops v = stop-IsValid w v.0
      step-IsValid w (registers c) v = (v.0, Alive-register w.shutdown_status c w.coop_repo v.1)
      step-IsValid w (readies c) v =
          (omega (arith, begins-append w.tasks (finish_coop c ∷ []), v.0), v.1)
      step-IsValid w (init_ends (ok u)) v = v
      step-IsValid w (init_ends (throw e)) v =
          stop-IsValid (record w { exception_from_init = some e }) v.0
      step-IsValid w (runs i) v = posted-IsValid i w v

      run-IsValid :
          (w : World C R) (es : List (Event C))
          → IsValid w
          → IsValid (run env_final_deregister_coop w es)
      unfolding run
      run-IsValid w [] v = v
      run-IsValid w (e ∷ es) v =
          run-IsValid (step env_final_deregister_coop w e) es (step-IsValid w e v)

      -- From an environment that is not shutting down, after any calls and tasks in any order: the task
      -- that begins the shutdown stands in the queue once if the shutdown must be started and not at all
      -- otherwise, so that it is never begun twice; and if the shutdown is in progress then some coop is
      -- still alive, so that it does not wait in vain.
      pub run-new-IsValid :
          (r : R) (es : List (Event C)) → IsValid (run env_final_deregister_coop (new_world r) es)
      run-new-IsValid r es = run-IsValid (new_world r) es (refl, tt)
