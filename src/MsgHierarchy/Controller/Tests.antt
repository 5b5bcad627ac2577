-- ===== src/MsgHierarchy/Controller/Tests.antt =====
-- The theorems on the requests of consumers at concrete inputs.
use so5extra.Prelude.{ℕ, ◌+◌, ◌≡◌, List, [], ◌∷◌, arith}
use so5extra.So5.{multi_producer_single_consumer}
use so5extra.MsgHierarchy.Upcaster.{typeid}
use so5extra.MsgHierarchy.Upcaster.Order.{type_ord}
use so5extra.MsgHierarchy.Controller.{Environment, Controller, acquire_receiving_mbox_for}
use so5extra.MsgHierarchy.Controller.Requests.{Request, wants, leaves, step, run}
use so5extra.MsgHierarchy.Controller.Stable.{acquire_again}

abbrev env : Environment ℕ ℕ
env = record {
  create_mbox = λ e. (e, e + 1);
  make_unique_subscribers_mbox = λ e. (e, e + 1);
  allocate_mbox_id = λ e. (e, e + 1);
}

abbrev start : Controller ℕ ℕ
start = record {
  mbox_type = multi_producer_single_consumer;
  consumer_id_counter = 2;
  consumers_with_mboxes = (1, (typeid 4, 50) ∷ []) ∷ [];
}

abbrev requests : List (Request ℕ)
requests = wants 1 (typeid 3) ∷ leaves 1 ∷ wants 2 (typeid 3) ∷ []

acquire_again_example :
    let (c', e') = run env (step env (start, 60) (wants 2 (typeid 4))) requests in
    (acquire_receiving_mbox_for env 2 (typeid 4) c' e').0
    ≡ (acquire_receiving_mbox_for env 2 (typeid 4) start 60).0
acquire_again_example = acquire_again env requests start 60 2 (typeid 4) (tt, tt) (omega arith)
