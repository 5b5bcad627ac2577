-- ===== src/MsgHierarchy/Controller.antt =====
-- dev/so_5_extra/msg_hierarchy/pub.hpp: the controllers of a demuxer, which keep for each consumer the
-- mboxes of the types it wants. `E` is the state of the environment and `B` stands for mboxes.
pub mod Requests
pub mod Stable
mod Tests
use so5extra.Prelude.{
  ℕ, suc, zero, ◌+◌, ◌%◌, ◌^◌, Option, none, some, List, [], ◌∷◌, ◌++◌, Ord, nat_ord, Bool, true,
  false, length,
}
use so5extra.Std.Map
use so5extra.So5.{
  MboxType, multi_producer_multi_consumer, multi_producer_single_consumer, DeliveryMode, Mutability,
  immutable_message, mutable_message, Error, extra,
  rc_mutable_msg_cannot_be_delivered_via_mpmc_mbox, Result, ok, throw, Delivery,
}
use so5extra.So5.Errors.{msg_hierarchy_errors}
use so5extra.MsgHierarchy.Upcaster.{
  TypeIndex, UpcasterFactory, MessageUpcaster, make_upcaster, has_parent_factory, parent_upcaster,
}
use so5extra.MsgHierarchy.Upcaster.Lineage.{lineage}

-- `consumer_numeric_id_t` has 64 bits.
abbrev pub id_mod : ℕ
id_mod = 2 ^ 64

abbrev pub invalid_consumer_id : ℕ
invalid_consumer_id = 0

-- What the controllers use of `environment_t`: each function makes a new mbox or a new id.
pub record Environment (E B : Type 0) : Type 0 where
  pub create_mbox : E → B × E
  pub make_unique_subscribers_mbox : E → B × E
  pub allocate_mbox_id : E → ℕ × E

pub record Controller (C B : Type 0) : Type 0 where
  pub mbox_type : MboxType
  pub consumer_id_counter : ℕ
  pub consumers_with_mboxes : List (ℕ × List (TypeIndex C × B))

unfoldable pub new_controller : {C B : Type 0} → MboxType → Controller C B
new_controller mbox_type = record {
  mbox_type = mbox_type;
  consumer_id_counter = 0;
  consumers_with_mboxes = [];
}

unfoldable pub acquire_new_consumer_id : {C B : Type 0} → Controller C B → ℕ × Controller C B
acquire_new_consumer_id c =
    let id = (c.consumer_id_counter + 1) % id_mod in (id, record c { consumer_id_counter = id })

unfoldable pub consumer_destroyed : {C B : Type 0} → ℕ → Controller C B → Controller C B
consumer_destroyed id c = record c { consumers_with_mboxes = Map.erase id c.consumers_with_mboxes }

-- The map of a consumer, which is empty when `emplace` has made it.
unfoldable pub consumer_map_of :
    {C B : Type 0} → ℕ → List (ℕ × List (TypeIndex C × B)) → List (TypeIndex C × B)
consumer_map_of id consumers = elim (Map.find id consumers) [ none ↦ [] | some found ↦ found ]

-- The receiving mboxes that each class of controllers makes.
pub creator : {E B : Type 0} → Environment E B → MboxType → E → B × E
creator env multi_producer_multi_consumer = env.create_mbox
creator env multi_producer_single_consumer = env.make_unique_subscribers_mbox

module _ {C E B : Type 0} ⦃o : Ord (TypeIndex C)⦄ where
  -- Finds or makes the mbox in the map of one consumer.
  pub find_or_create :
      (E → B × E) → TypeIndex C → List (TypeIndex C × B) → E → B × List (TypeIndex C × B) × E
  find_or_create create msg_type consumer_map e = elim (Map.find msg_type consumer_map) [
    | some mbox ↦ (mbox, consumer_map, e)
    | none ↦ let (mbox, e') = create e in (mbox, Map.emplace msg_type mbox consumer_map, e')
  ]

  pub acquire_with : (E → B × E) → ℕ → TypeIndex C → Controller C B → E → B × Controller C B × E
  unfolding find_or_create consumer_map_of
  acquire_with create id msg_type c e =
      let consumers = Map.emplace id [] c.consumers_with_mboxes in
      let (mbox, consumer_map, e') =
        find_or_create create msg_type (consumer_map_of id consumers) e in
      (mbox, record c { consumers_with_mboxes = Map.modify id (λ _. consumer_map) consumers }, e')

  unfoldable pub acquire_receiving_mbox_for :
      Environment E B → ℕ → TypeIndex C → Controller C B → E → B × Controller C B × E
  unfolding acquire_with creator
  acquire_receiving_mbox_for env id msg_type c e =
      acquire_with (creator env c.mbox_type) id msg_type c e
