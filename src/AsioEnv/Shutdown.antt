-- ===== src/AsioEnv/Shutdown.antt =====
-- dev/so_5_extra/env_infrastructures/asio/simple_not_mtsafe.hpp: the status of the environment's
-- shutdown. All runs on one thread, task after task of the `io_context`.
pub mod Begins
pub mod Progress
mod Tests
use so5extra.Prelude.{
  ℕ, ◌+◌, ◌-◌, Bool, true, false, not, Option, none, some, List, [], ◌∷◌, ◌++◌, get_elem?, erase_at,
  if◌then◌else◌,
}
use so5extra.So5.{Error, Result, ok, throw}

-- SObjectizer's `shutdown_status_t`.
pub data ShutdownStatus : Type 0 where
  not_started must_be_started in_progress completed : ShutdownStatus

-- SObjectizer's repository of coops, `coop_repo_t`.
pub record CoopRepo (C R : Type 0) : Type 0 where
  pub has_live_coop : R → Bool
  pub register_coop : C → R → R
  pub deregister_all_coop : R → R
  pub final_deregister_coop : C → R → R × Bool

-- What is posted to the `io_context`.
pub data Task (C : Type 0) : Type 0 where
  begin_shutdown : Task C
  finish_coop : C → Task C

pub record World (C R : Type 0) : Type 0 where
  pub shutdown_status : ShutdownStatus
  pub coop_repo : R
  pub final_dereg_coop_count : ℕ
  pub tasks : List (Task C)
  pub exception_from_init : Option Error
  pub io_stopped : Bool

abbrev pub new_world : {C R : Type 0} → R → World C R
new_world r = record {
  shutdown_status = not_started;
  coop_repo = r;
  final_dereg_coop_count = 0;
  tasks = [];
  exception_from_init = none;
  io_stopped = false;
}

module _ {C R : Type 0} (repo : CoopRepo C R) where
  -- `check_shutdown_completeness` and `stop`, by the status.
  unfoldable pub check_at : ShutdownStatus → World C R → World C R
  check_at not_started w = w
  check_at must_be_started w = w
  check_at completed w = w
  check_at in_progress w =
      if repo.has_live_coop w.coop_repo
      then w
      else record w { shutdown_status = completed; io_stopped = true }

  unfoldable pub check_shutdown_completeness : World C R → World C R
  unfolding check_at
  check_shutdown_completeness w = check_at w.shutdown_status w

  unfoldable pub stop_at : ShutdownStatus → World C R → World C R
  unfolding check_shutdown_completeness
  stop_at not_started w = record w {
    shutdown_status = must_be_started;
    tasks = w.tasks ++ begin_shutdown ∷ [];
  }
  stop_at must_be_started w = check_shutdown_completeness w
  stop_at in_progress w = check_shutdown_completeness w
  stop_at completed w = check_shutdown_completeness w

  unfoldable pub stop : World C R → World C R
  unfolding stop_at
  stop w = stop_at w.shutdown_status w

  -- The task that `stop` posts.
  unfoldable pub run_begin_shutdown : World C R → World C R
  unfolding check_shutdown_completeness
  run_begin_shutdown w =
      check_shutdown_completeness (record w {
        shutdown_status = in_progress;
        coop_repo = repo.deregister_all_coop w.coop_repo;
      })

  unfoldable pub register_coop : C → World C R → World C R
  register_coop c w = record w { coop_repo = repo.register_coop c w.coop_repo }

  unfoldable pub ready_to_deregister_notify : C → World C R → World C R
  ready_to_deregister_notify c w = record w {
    final_dereg_coop_count = w.final_dereg_coop_count + 1;
    tasks = w.tasks ++ finish_coop c ∷ [];
  }

  unfoldable pub final_deregister_coop : C → World C R → World C R × Bool
  final_deregister_coop c w =
      let (r, live) = repo.final_deregister_coop c w.coop_repo in (record w { coop_repo = r }, live)

  -- The end of `run_default_dispatcher_and_go_further`, by what `init_fn` did.
  unfoldable pub init_returned : Result (Unit {0}) → World C R → World C R
  unfolding stop
  init_returned (ok u) w = w
  init_returned (throw e) w = stop (record w { exception_from_init = some e })

  module _ (env_final_deregister_coop : C → World C R → World C R) where
    unfoldable pub run_task : Task C → World C R → World C R
    unfolding run_begin_shutdown
    run_task begin_shutdown w = run_begin_shutdown w
    run_task (finish_coop c) w =
        env_final_deregister_coop c
          (record w { final_dereg_coop_count = w.final_dereg_coop_count - 1 })

    -- The task number `i` of those that are posted.
    unfoldable pub run_posted : ℕ → World C R → World C R
    unfolding run_task
    run_posted i w = elim (get_elem? w.tasks i) [
      | none ↦ w
      | some t ↦ run_task t (record w { tasks = erase_at w.tasks i })
    ]
