-- ===== src/MsgHierarchy/Deliver/Climb.antt =====
-- The loop over the chain of upcasters against the list of the types that it visits.
use so5extra.Prelude.{
  ℕ, zero, suc, ◌≤◌, ◌≡◌, Option, none, some, List, [], ◌∷◌, map, arith, Ord, length,
}
use so5extra.Std.Map
use so5extra.So5.{Mutability}
use so5extra.MsgHierarchy.Upcaster.{
  TypeIndex, UpcasterFactory, so_make_upcaster_root, so_make_upcaster, self_type_of, make_upcaster,
  has_parent_factory, parent_upcaster,
}
use so5extra.MsgHierarchy.Upcaster.Lineage.{lineage}
use so5extra.MsgHierarchy.Deliver.{returned, SingleDestInfo, climb, find_receiver}

module _ {C : Type 0} where
  -- The types that a message can be delivered as, the most derived one first.
  unfoldable pub types : Mutability → UpcasterFactory C → List (TypeIndex C)
  unfolding self_type_of lineage
  types mutability factory = map (self_type_of mutability) (lineage factory)

module _ {C B : Type 0} ⦃o : Ord (TypeIndex C)⦄ where
  -- The mbox of the first of the types that has one.
  unfoldable pub nearest : List (TypeIndex C) → List (TypeIndex C × B) → Option (SingleDestInfo C B)
  nearest [] consumer_map = none
  nearest (t ∷ ts) consumer_map =
      let rest = nearest ts consumer_map in
      elim (Map.find t consumer_map) [
        | some mbox ↦ some (record { dest_mbox = mbox; subscription_type = t })
        | none ↦ rest
      ]

  climb-nearest :
      (factory : UpcasterFactory C) (fuel : ℕ) (m : Mutability)
      (consumer_map : List (TypeIndex C × B))
      → length (lineage factory) ≤ fuel
      → climb fuel m consumer_map (make_upcaster factory m)
        ≡ returned (nearest (types m factory) consumer_map)
  unfolding climb make_upcaster has_parent_factory parent_upcaster nearest types lineage
  climb-nearest (so_make_upcaster_root c) zero m consumer_map h = absurd (omega arith)
  climb-nearest (so_make_upcaster c factory) zero m consumer_map h = absurd (omega arith)
  climb-nearest (so_make_upcaster_root c) (suc fuel) m consumer_map h = ground arith
  climb-nearest (so_make_upcaster c factory) (suc fuel) m consumer_map h =
      ground (arith, climb-nearest factory fuel m consumer_map)

  -- The search for the receiver of a consumer ends without an exception, with the mbox of the first
  -- type, from the most derived one to the root, that the consumer has an mbox for.
  pub find_receiver-nearest :
      (m : Mutability) (factory : UpcasterFactory C) (consumer_map : List (TypeIndex C × B))
      → find_receiver m factory consumer_map ≡ returned (nearest (types m factory) consumer_map)
  unfolding find_receiver
  find_receiver-nearest m factory consumer_map =
      climb-nearest factory (length (lineage factory)) m consumer_map (omega arith)
