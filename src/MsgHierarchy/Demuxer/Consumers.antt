-- ===== src/MsgHierarchy/Demuxer/Consumers.antt =====
-- The ids of the consumers of a demuxer, and what a move of a consumer does.
use so5extra.Prelude.{
  ℕ, zero, suc, ◌+◌, ◌^◌, ◌<◌, ◌≡◌, refl, ap, ◌∙◌, none, some, List, [], ◌∷◌, arith, Ord, nat_ord,
  get_elem?, ◌==◌, if◌then◌else◌, get_elem?-set_there,
}
use so5extra.Std.Map.{IsSorted}
use so5extra.So5.{MboxType}
use so5extra.MsgHierarchy.Upcaster.{TypeIndex}
use so5extra.MsgHierarchy.Controller.{
  Controller, new_controller, acquire_new_consumer_id, consumer_destroyed,
}
use so5extra.MsgHierarchy.Controller.Requests.{mbox_of, mbox_of-destroyed}
use so5extra.MsgHierarchy.Demuxer.{World, Consumer, destroy_consumer, move_assign}

module _ {C B : Type 0} where
  -- The ids of `k` calls of `acquire_new_consumer_id`.
  unfoldable pub new_ids : ℕ → Controller C B → List ℕ
  unfolding acquire_new_consumer_id
  new_ids zero c = []
  new_ids (suc k) c = let (id, c') = acquire_new_consumer_id c in id ∷ new_ids k c'

  new_ids-from :
      (k i : ℕ) (c : Controller C B)
      → c.consumer_id_counter + k < 2 ^ 64
      → i < k
      → get_elem? (new_ids k c) i ≡ some (c.consumer_id_counter + i + 1)
  unfolding new_ids
  new_ids-from zero i c h l = absurd (omega arith)
  new_ids-from (suc k) zero c h l = ground arith
  new_ids-from (suc k) (suc i) c h l =
      let (id, c') = acquire_new_consumer_id c in ground (arith, new_ids-from k i c')

module _ (C B : Type 0) where
  -- The consumers of a new demuxer get the ids 1, 2, 3, ... in the order of their allocation, of which
  -- none is the invalid id 0 and no two are the same, as long as there are less than 2 ^ 64 of them.
  pub new_ids_count :
      (mbox_type : MboxType) (k i : ℕ)
      → k < 2 ^ 64
      → i < k
      → get_elem? (new_ids k (new_controller {C = C} {B = B} mbox_type)) i ≡ some (i + 1)
  unfolding new_controller
  new_ids_count mbox_type k i h l =
      new_ids-from k i (new_controller mbox_type) (omega arith) l ∙ ap some (omega arith)

module _ {C E B : Type 0} ⦃o : Ord (TypeIndex C)⦄ where
  -- After `self = std::move(other)`, for two consumers of one demuxer, `self` is the consumer that
  -- `other` was; the old consumer of `self` has no mboxes any more and all other consumers keep
  -- theirs; and the destruction of `other` changes nothing.
  pub move_assign_lem :
      (self other : Consumer) (w : World C E B) (p : ℕ) (c : Controller C B)
      → self.controller ≡ some p
      → get_elem? w.controllers p ≡ some c
      → IsSorted c.consumers_with_mboxes
      → let (self', other', w') = move_assign self other w in
        (self' ≡ other)
        × (destroy_consumer other' w' ≡ w')
        × (c' : Controller C B) × (get_elem? w'.controllers p ≡ some c')
        × ((q : ℕ) (t : TypeIndex C)
            → mbox_of q t c' ≡ (if self.id == q then none else mbox_of q t c))
  unfolding move_assign destroy_consumer
  move_assign_lem self other w p c hp hc s = (
    refl,
    refl,
    consumer_destroyed self.id c,
    ground (arith, hp, hc, get_elem?-set_there w.controllers p (consumer_destroyed self.id c) c),
    λ q t. mbox_of-destroyed self.id q t c s,
  )
