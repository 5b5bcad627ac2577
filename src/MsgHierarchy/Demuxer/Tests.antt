-- ===== src/MsgHierarchy/Demuxer/Tests.antt =====
-- The theorems on demuxers and consumers at concrete inputs.
use so5extra.Prelude.{ℕ, ◌≡◌, refl, some, [], ◌∷◌, arith, get_elem?, ◌==◌, if◌then◌else◌, none}
use so5extra.So5.{multi_producer_multi_consumer}
use so5extra.MsgHierarchy.Upcaster.{TypeIndex, typeid}
use so5extra.MsgHierarchy.Upcaster.Order.{type_ord}
use so5extra.MsgHierarchy.Controller.{Controller, new_controller}
use so5extra.MsgHierarchy.Controller.Requests.{mbox_of}
use so5extra.MsgHierarchy.Demuxer.{World, Consumer, destroy_consumer, move_assign}
use so5extra.MsgHierarchy.Demuxer.Consumers.{new_ids, new_ids_count, move_assign_lem}

third_id :
    get_elem? (new_ids 3 (new_controller {C = ℕ} {B = ℕ} multi_producer_multi_consumer)) 2 ≡ some 3
third_id = new_ids_count ℕ ℕ multi_producer_multi_consumer 3 2 (omega arith) (omega arith)

abbrev controller : Controller ℕ ℕ
controller = record {
  mbox_type = multi_producer_multi_consumer;
  consumer_id_counter = 2;
  consumers_with_mboxes = (1, (typeid 4, 50) ∷ []) ∷ (2, (typeid 5, 51) ∷ []) ∷ [];
}

abbrev world : World ℕ ℕ ℕ
world = record { controllers = controller ∷ []; env = 60 }

abbrev consumer : ℕ → Consumer
consumer id = record { controller = some 0; id = id }

moved_consumer :
    let (self', other', w') = move_assign (consumer 1) (consumer 2) world in
    (self' ≡ consumer 2)
    × (destroy_consumer other' w' ≡ w')
    × (c' : Controller ℕ ℕ) × (get_elem? w'.controllers 0 ≡ some c')
    × ((q : ℕ) (t : TypeIndex ℕ)
        → mbox_of q t c' ≡ (if 1 == q then none else mbox_of q t controller))
moved_consumer =
    move_assign_lem (consumer 1) (consumer 2) world 0 controller refl refl (refl, (tt, tt))
